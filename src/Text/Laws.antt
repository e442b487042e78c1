-- ===== src/Text/Laws.antt =====
-- Laws of the texts: their order, what a prefix leaves, and where a cut falls.
use Prim.Native.String
use text.Mathlib.TextEquality.{codes_equal}
use text.Mathlib.TextLemmas.{nil-append, cons-append}
use udp_director.Prelude.{◌≡◌, refl, ap, String, true, false, some, arith, IsOrder}
use udp_director.Text.{str_leb, strip_prefix}

str_leb_total : (s t : String) → str_leb s t ≡ false → str_leb t s ≡ true
unfolding str_leb
str_leb_total String.[] t h = cc
str_leb_total (String.◌∷◌ c s) String.[] h = refl
str_leb_total (String.◌∷◌ c s) (String.◌∷◌ d t) h = ground (arith, str_leb_total s t)

str_leb_trans : (s t u : String) → str_leb s t ≡ true → str_leb t u ≡ true → str_leb s u ≡ true
unfolding str_leb
str_leb_trans String.[] t u h k = refl
str_leb_trans (String.◌∷◌ c s) String.[] u h k = cc
str_leb_trans (String.◌∷◌ c s) (String.◌∷◌ d t) String.[] h k = cc
str_leb_trans (String.◌∷◌ c s) (String.◌∷◌ d t) (String.◌∷◌ e u) h k =
    ground (arith, str_leb_trans s t u)

pub str_leb-IsOrder : IsOrder str_leb
str_leb-IsOrder = record { total = str_leb_total; trans = str_leb_trans }

-- A prefix is stripped off the text it was put in front of.
pub strip_prefix-append : (p s : String) → strip_prefix p (String.◌++◌ p s) ≡ some s
unfolding strip_prefix
strip_prefix-append String.[] s = ap some (nil-append s)
strip_prefix-append (String.◌∷◌ c p) s =
    rw (cons-append c p s) (ground (arith, strip_prefix-append p s))

-- What is left of a text is what stands behind the prefix.
pub strip_prefix-eq-some :
    (p s rest : String) → strip_prefix p s ≡ some rest → s ≡ String.◌++◌ p rest
unfolding strip_prefix
strip_prefix-eq-some String.[] s rest h = rw (nil-append rest) (ground arith)
strip_prefix-eq-some (String.◌∷◌ c p) String.[] rest h = cc
strip_prefix-eq-some (String.◌∷◌ c p) (String.◌∷◌ d s) rest h =
    rw (cons-append c p rest) (ground (arith, strip_prefix-eq-some p s rest, codes_equal c d))
