-- ===== src/Session/Entries.antt =====
-- Laws of the map of prefix states: reads after writes and after a sweep.
use hr.Prelude.{◌≡◌, ◌≢◌, refl, Bool, true, some, [], ◌∷◌, if◌then◌else◌, retain, arith}
use hr.Session.{Key, eq_key, eq_key_iff, PrefixState, Prefixes, lookup, write}

pub lookup-write :
    (k j : Key) (s : PrefixState) (m : Prefixes)
    → lookup j (write k s m) ≡ (if eq_key k j then some s else lookup j m)
unfolding lookup write
lookup-write k j s [] = refl
lookup-write k j s ((i, t) ∷ m) =
    ground (arith, lookup-write k j s m, eq_key_iff k j, eq_key_iff i j, eq_key_iff i k)

-- A sweep keeps what a key is mapped to, if that is live.
pub lookup-retain :
    (p : Key × PrefixState → Bool) (k : Key) (s : PrefixState) (m : Prefixes)
    → lookup k m ≡ some s
    → p (k, s) ≡ true
    → lookup k (retain p m) ≡ some s
unfolding lookup
lookup-retain p k s [] h l = h
lookup-retain p k s ((i, t) ∷ m) h l = ground (arith, lookup-retain p k s m, eq_key_iff i k)

-- A write to one key does not show to another, through a sweep either.
pub lookup-retain-write :
    (p : Key × PrefixState → Bool) (k j : Key) (s : PrefixState) (m : Prefixes)
    → k ≢ j
    → lookup j (retain p (write k s m)) ≡ lookup j (retain p m)
unfolding lookup write
lookup-retain-write p k j s [] n = ground (arith, eq_key_iff k j)
lookup-retain-write p k j s ((i, t) ∷ m) n =
    ground (arith, lookup-retain-write p k j s m n, eq_key_iff i j, eq_key_iff i k, eq_key_iff k j)

pub lookup-write_self : (k : Key) (s : PrefixState) (m : Prefixes) → lookup k (write k s m) ≡ some s
lookup-write_self k s m = rw (lookup-write k k s m, (eq_key_iff k k).1 refl)
