-- ===== src/Js/Laws.antt =====
-- Laws of objects.
use advanced_wallets.Base.{
  String, ◌≡◌, refl, ◌∙◌, Bool, true, false, arith, str_eq, eq_iff, if◌then◌else◌,
}
use advanced_wallets.Js.{Fields, Value, end, field, get, set, has, spread}

pub get-set :
    (fs : Fields) (k j : String) (v : Value)
    → get (set fs k v) j ≡ (if str_eq k j then v else get fs j)
unfolding get set
get-set end k j v = refl
get-set (field i w fs) k j v = ground (arith, eq_iff k j, eq_iff i k, eq_iff i j, get-set fs k j v)

pub has-set :
    (fs : Fields) (k j : String) (v : Value)
    → has (set fs k v) j ≡ (if str_eq k j then true else has fs j)
unfolding has set
has-set end k j v = refl
has-set (field i w fs) k j v = ground (arith, eq_iff k j, eq_iff i k, eq_iff i j, has-set fs k j v)

head_differs : (a b : Bool) → (if a then true else b) ≡ false → (a ≡ false) × (b ≡ false)
head_differs true b h = absurd cc
head_differs false b h = (refl, h)

-- An entry that the second object does not have is that of the first.
pub get-spread : (fs gs : Fields) (k : String) → has gs k ≡ false → get (spread fs gs) k ≡ get fs k
unfolding spread has
get-spread fs end k h = refl
get-spread fs (field j v gs) k h =
    let d : (str_eq j k ≡ false) × (has gs k ≡ false) = head_differs (str_eq j k) (has gs k) h in
    get-spread (set fs j v) gs k d.1 ∙ (rw (get-set fs j k v, d.0) refl)
