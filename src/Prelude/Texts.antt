-- ===== src/Prelude/Texts.antt =====
-- What the program uses of Go's standard library on texts: strconv.Itoa, sort.Strings,
-- strings.HasPrefix, strings.Join, and fmt.Sprintf with %v on decoded values.
use Prim.Native.Nat.{ℕ, zero, suc, ◌/◌, ◌%◌, Ordering}
use Prim.Native.String.{String, compare, slice, ◌++◌ as ◌<>◌}
use mathlib.Core.Bool.{Bool, true, false}
use mathlib.Core.List.{List, [], ◌∷◌}
use package.text.Mathlib.Text.{◌==◌ as str_eq}
use helios_ci_cd.Prelude.Tests.{if◌then◌else◌, ltb}
use helios_ci_cd.Prelude.Json.{
  ℤ, pos, negsuc, Json, null, bool, num, text, arr, obj, Items, nil, cons, Fields, end, field,
}

-- The digit of a number below 10.
digit : ℕ → String
digit n = slice "0123456789" n (suc n)

-- The decimal digits of a number with at most `fuel` of them.
digits : ℕ → ℕ → String
unfolding digit
digits zero n = ""
digits (suc fuel) n =
    let front = digits fuel (n / 10) in if ltb n 10 then digit n else front <> digit (n % 10)

-- strconv.Itoa on a number that is not negative: n has at most n + 1 digits.
unfoldable pub itoa : ℕ → String
unfolding digits
itoa n = digits (suc n) n

-- s <= t in the order of the bytes.
unfoldable pub text_le : String → String → Bool
text_le s t = elim (compare s t) [ Ordering.gt ↦ false | _ ↦ true ]

unfoldable pub insert_text : String → List String → List String
insert_text s [] = s ∷ []
insert_text s (t ∷ ts) =
    let later = t ∷ insert_text s ts in if text_le s t then s ∷ t ∷ ts else later

-- sort.Strings
unfoldable pub sort_texts : List String → List String
sort_texts [] = []
sort_texts (s ∷ ts) = insert_text s (sort_texts ts)

-- strings.HasPrefix(s, "__")
unfoldable pub is_internal : String → Bool
is_internal s = str_eq (slice s 0 2) "__"

-- strings.Join(parts, sep)
unfoldable pub join : String → List String → String
join sep [] = ""
join sep (s ∷ []) = s
join sep (s ∷ t ∷ ts) = s <> (sep <> join sep (t ∷ ts))

sprint_int : ℤ → String
sprint_int (pos n) = itoa n
sprint_int (negsuc n) = "-" <> itoa (suc n)

sprint_bool : Bool → String
sprint_bool true = "true"
sprint_bool false = "false"

-- fmt.Sprintf("%v", value): a map is printed in the order of its keys, in which its fields are
-- taken to stand.
unfoldable mutual
  unfolding sprint_int sprint_bool

  pub sprint : Json → String
  sprint null = "<nil>"
  sprint (bool b) = sprint_bool b
  sprint (num n) = sprint_int n
  sprint (text s) = s
  sprint (arr items) = "[" <> (sprint_items items <> "]")
  sprint (obj fields) = "map[" <> (sprint_fields fields <> "]")

  pub sprint_items : Items → String
  sprint_items nil = ""
  sprint_items (cons v nil) = sprint v
  sprint_items (cons v (cons w vs)) = sprint v <> (" " <> sprint_items (cons w vs))

  pub sprint_fields : Fields → String
  sprint_fields end = ""
  sprint_fields (field k v end) = k <> (":" <> sprint v)
  sprint_fields (field k v (field l w fs)) =
      k <> (":" <> (sprint v <> (" " <> sprint_fields (field l w fs))))
