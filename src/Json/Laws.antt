-- ===== src/Json/Laws.antt =====
-- Reading a field after a write.
use naia_relay.Prelude.{String, ◌≡◌, refl, some, ◌==◌, eq_iff, if◌then◌else◌, arith}
use naia_relay.Json.{Value, Object, get, put, empty, field}

pub get-put :
    (k j : String) (v : Value) (o : Object)
    → get j (put k v o) ≡ (if k == j then some v else get j o)
unfolding get put
get-put k j v empty = refl
get-put k j v (field i w o) = ground (arith, eq_iff k j, eq_iff i k, eq_iff i j, get-put k j v o)
