-- ===== src/Adapter/Versioning.antt =====
-- src/ucf/adapter_protocol/versioning.py
use Prim.Native.String.{count}
use ucf.Prelude.{
  ℕ, String, ◌≡◌, refl, Bool, true, false, not, ◌&&◌, ◌||◌, List, [], ◌∷◌, map, nat_eq, text_lt,
  ltb, split_dots,
}

-- (len(segment), segment)
abbrev pub segment_key : String → ℕ × String
segment_key segment = (count segment, segment)

abbrev pub key_lt : ℕ × String → ℕ × String → Bool
key_lt (n, s) (m, t) = ltb n m || (not (ltb m n) && text_lt s t)

-- `<` of tuples: at the first place where they differ, and where one ends first
abbrev pub keys_lt : List (ℕ × String) → List (ℕ × String) → Bool
keys_lt [] [] = false
keys_lt [] (_ ∷ _) = true
keys_lt (_ ∷ _) [] = false
keys_lt (x ∷ xs) (y ∷ ys) = let rest = keys_lt xs ys in key_lt x y || (not (key_lt y x) && rest)

unfoldable pub version_at_least : String → String → Bool
unfolding split_dots
version_at_least actual minimum =
    not (keys_lt (map segment_key (split_dots actual)) (map segment_key (split_dots minimum)))

-- "10.0.0" is at least "9.9.9", where the texts alone compare the other way, and "1.2.0" is not "1.10.0".
numeric_segments :
    (version_at_least "10.0.0" "9.9.9" ≡ true)
    × (version_at_least "1.2.0" "1.10.0" ≡ false)
    × (version_at_least "1.2.3" "1.2.3" ≡ true)
unfolding version_at_least
numeric_segments = (refl, refl, refl)
