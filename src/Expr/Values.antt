-- ===== src/Expr/Values.antt =====
-- The helpers of api/pkg/expr/eval.go on values.
use helios_ci_cd.Prelude.{
  ℕ, zero, suc, Bool, true, false, not, ◌&&◌, ◌||◌, Option, none, some, List, [], ◌∷◌, ◌==◌,
  if◌then◌else◌,
}
use helios_ci_cd.Prelude.Json.{ℤ, pos, negsuc, Json}
use helios_ci_cd.Prelude.Texts.{sprint}
use helios_ci_cd.Expr.{
  Bytes, codes, Go, Value, Items, Fields, null, bool, num, int, int64, text, items, fields, texts,
  text_map, no_items, item, no_fields, field,
}
use helios_ci_cd.Expr.Texts.{bytes_eq, bytes_lt}

-- strconv.FormatInt(z, 10)
unfoldable pub decimal : ℤ → Bytes
unfolding sprint
decimal z = codes (sprint (Json.num z))

-- A key of a map with text keys.
unfoldable pub find {ℓ} : {V : Type ℓ} → Bytes → List (Bytes × V) → Option V
find k [] = none
find k ((j, v) ∷ m) = let rest = find k m in if bytes_eq j k then some v else rest

int_eq : ℤ → ℤ → Bool
int_eq (pos m) (pos n) = m == n
int_eq (negsuc m) (negsuc n) = m == n
int_eq _ _ = false

module _ {F : Type 0} where
  unfoldable pub find_field : Bytes → Fields F → Value F
  find_field k no_fields = null
  find_field k (field j v fs) = let rest = find_field k fs in if bytes_eq j k then v else rest

  unfoldable pub item_at : ℕ → Items F → Value F
  item_at i no_items = null
  item_at zero (item v vs) = v
  item_at (suc i) (item v vs) = item_at i vs

  unfoldable pub text_at : ℕ → List Bytes → Value F
  text_at i [] = null
  text_at zero (s ∷ ss) = text s
  text_at (suc i) (s ∷ ss) = text_at i ss

  unfoldable pub text_or_null : Option Bytes → Value F
  text_or_null none = null
  text_or_null (some s) = text s

  unfoldable pub list_of : Items F → List (Value F)
  list_of no_items = []
  list_of (item v vs) = v ∷ list_of vs

  unfoldable pub is_str : Value F → Bool
  is_str (text s) = true
  is_str _ = false

  unfoldable pub is_null : Value F → Bool
  is_null null = true
  is_null _ = false

  unfoldable pub member_access : Value F → Bytes → Value F
  unfolding find_field text_or_null find
  member_access (fields fs) name = find_field name fs
  member_access (text_map m) name = text_or_null (find name m)
  member_access _ name = null

module _ {F : Type 0} (go : Go F) where
  unfoldable pub truthy : Value F → Bool
  truthy null = false
  truthy (bool b) = b
  truthy (num x) = not (go.eq x go.zero_num)
  truthy (int (pos zero)) = false
  truthy (text []) = false
  truthy _ = true

  unfoldable pub to_number : Value F → Option F
  to_number (num x) = some x
  to_number (int z) = some (go.of_int z)
  to_number (int64 z) = some (go.of_int z)
  to_number (bool true) = some (go.of_int (pos 1))
  to_number (bool false) = some (go.of_int (pos 0))
  to_number (text s) = go.parse_float s
  to_number _ = none

  float_text : F → Bytes
  unfolding decimal
  float_text x =
      if go.eq x (go.of_int (go.to_int x)) then decimal (go.to_int x) else go.format_float x

  unfoldable pub to_string : Value F → Bytes
  unfolding decimal float_text
  to_string null = []
  to_string (text s) = s
  to_string (bool true) = codes "true"
  to_string (bool false) = codes "false"
  to_string (num x) = float_text x
  to_string (int z) = decimal z
  to_string (int64 z) = decimal z
  to_string v = go.sprint v

  -- m[int(i)], or nil out of the bounds.
  unfoldable pub at_number : (ℕ → Value F) → Option F → Value F
  at_number get none = null
  at_number get (some x) = elim (go.to_int x) [ pos i ↦ get i | negsuc i ↦ null ]

  unfoldable pub index_access : Value F → Value F → Value F
  unfolding find_field item_at text_at text_or_null find to_string to_number at_number
  index_access (fields fs) i = find_field (to_string i) fs
  index_access (text_map m) i = text_or_null (find (to_string i) m)
  index_access (items vs) i = at_number (λ k. item_at k vs) (to_number i)
  index_access (texts ss) i = at_number (λ k. text_at k ss) (to_number i)
  index_access _ i = null

  -- a == b on interfaces, where `none` is the panic of two slices or two maps of one type.
  unfoldable pub interface_eq : Value F → Value F → Option Bool
  unfolding int_eq
  interface_eq null null = some true
  interface_eq (bool true) (bool b) = some b
  interface_eq (bool false) (bool b) = some (not b)
  interface_eq (num x) (num y) = some (go.eq x y)
  interface_eq (int a) (int b) = some (int_eq a b)
  interface_eq (int64 a) (int64 b) = some (int_eq a b)
  interface_eq (text s) (text t) = some (bytes_eq s t)
  interface_eq (items vs) (items ws) = none
  interface_eq (fields fs) (fields gs) = none
  interface_eq (texts ss) (texts ts) = none
  interface_eq (text_map m) (text_map n) = none
  interface_eq _ _ = some false

  -- fa == fb where both are numbers.
  unfoldable pub numbers_eq : Option F → Option F → Bool
  numbers_eq (some x) (some y) = go.eq x y
  numbers_eq _ _ = false

  -- looseEq after the comparison a == b.
  unfoldable pub loosely : Value F → Value F → Option Bool → Option Bool
  unfolding is_str to_string to_number numbers_eq
  loosely a b none = none
  loosely a b (some same) =
      if same
      then some true
      else if is_str a || is_str b
      then some (bytes_eq (to_string a) (to_string b))
      else some (numbers_eq (to_number a) (to_number b))

  unfoldable pub loose_eq : Value F → Value F → Option Bool
  unfolding is_null loosely interface_eq
  loose_eq a b =
      if is_null a && is_null b
      then some true
      else if is_null a || is_null b
      then some false
      else loosely a b (interface_eq a b)

  unfoldable pub text_cmp : Bytes → Bytes → Bytes → Bool
  text_cmp op s t =
      if bytes_eq op (codes "<")
      then bytes_lt s t
      else if bytes_eq op (codes ">")
      then bytes_lt t s
      else if bytes_eq op (codes "<=")
      then not (bytes_lt t s)
      else if bytes_eq op (codes ">=")
      then not (bytes_lt s t)
      else false

  unfoldable pub number_cmp : Bytes → F → F → Bool → Bool
  number_cmp op x y otherwise =
      if bytes_eq op (codes "<")
      then go.lt x y
      else if bytes_eq op (codes ">")
      then go.lt y x
      else if bytes_eq op (codes "<=")
      then go.le x y
      else if bytes_eq op (codes ">=")
      then go.le y x
      else otherwise

  cmp_of : Bytes → Option F → Option F → Bool → Bool
  unfolding number_cmp
  cmp_of op (some x) (some y) otherwise = number_cmp op x y otherwise
  cmp_of op _ _ otherwise = otherwise

  unfoldable pub cmp_num_or_str : Bytes → Value F → Value F → Bool
  unfolding cmp_of text_cmp to_number to_string
  cmp_num_or_str op a b =
      cmp_of op (to_number a) (to_number b) (text_cmp op (to_string a) (to_string b))
