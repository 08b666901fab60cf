-- ===== src/Registry/Laws.antt =====
-- src/deepx_sdk/_error_codes.py: what holds of every row of the registry.
use deepx_python_sdk.Prelude.{
  ℕ, ◌≡◌, refl, String, Bool, true, false, not, ◌&&◌, ◌||◌, Option, none, some, List, [], ◌∷◌,
  str_eq, eq_refl, eq_iff, ap, string_eq, arith, ◌∙◌, Dict, get, put, get-put,
}
use mathlib.Core.List.{Memᴰ}
use deepx_python_sdk.Registry.{
  chain_entries, build, lookup_chain_error, pallet_name, pallet_index, parse_chain_error_text,
}
use deepx_python_sdk.Registry.Entry.{ChainErrorCode}

-- some row has this code
has_code : String → List ChainErrorCode → Bool
has_code k [] = false
has_code k (e ∷ es) = str_eq e.code k || has_code k es

distinct : List ChainErrorCode → Bool
unfolding has_code
distinct [] = true
distinct (e ∷ es) = not (has_code e.code es) && distinct es

-- the name that PALLET_NAMES gives to the index in the row's code
abbrev pub name_of : Option ℕ → Option String
name_of none = none
name_of (some i) = pallet_name i

same_name : Option String → String → Bool
same_name none pallet = false
same_name (some name) pallet = str_eq name pallet

-- the pallet of each row is the name of the index in its code
named_right : List ChainErrorCode → Bool
unfolding pallet_name pallet_index same_name
named_right [] = true
named_right (e ∷ es) = same_name (name_of (pallet_index e)) e.pallet && named_right es

same_name-eq : (o : Option String) (pallet : String) → same_name o pallet ≡ true → o ≡ some pallet
unfolding same_name
same_name-eq none pallet h = cc
same_name-eq (some name) pallet h = ap some ((eq_iff name pallet).0 h)

entries_distinct : distinct chain_entries ≡ true
unfolding distinct
entries_distinct = refl

entries_named_right : named_right chain_entries ≡ true
unfolding named_right
entries_named_right = refl

get-build_other :
    (k : String) (es : List ChainErrorCode) (d : Dict String ChainErrorCode)
    → has_code k es ≡ false
    → get k (build es d) ≡ get k d
unfolding build has_code
get-build_other k [] d h = refl
get-build_other k (e ∷ es) d h =
    ground (arith, get-build_other k es (put e.code e d), get-put e.code k e d)

get-build :
    (es : List ChainErrorCode) (d : Dict String ChainErrorCode) (x : ChainErrorCode)
    → distinct es ≡ true
    → Memᴰ x es
    → get x.code (build es d) ≡ some x
unfolding build distinct
get-build [] d x h m = elim m [ ]
get-build (e ∷ es) d x h (Memᴰ.head p) = rw p (
    get-build_other e.code es (put e.code e d) (ground arith)
    ∙ ground (arith, get-put e.code e.code e d, eq_refl e.code))
get-build (e ∷ es) d x h (Memᴰ.tail m) = get-build es (put e.code e d) x (ground arith) m

named_entry :
    (es : List ChainErrorCode) (x : ChainErrorCode)
    → named_right es ≡ true
    → Memᴰ x es
    → name_of (pallet_index x) ≡ some x.pallet
named_entry [] x h m = elim m [ ]
named_entry (e ∷ es) x h (Memᴰ.head p) =
    rw p (same_name-eq (name_of (pallet_index e)) e.pallet (unfold named_right in ground arith))
named_entry (e ∷ es) x h (Memᴰ.tail m) = named_entry es x (unfold named_right in ground arith) m

-- Every row of the table is found under its own code, and its code and its pallet's name agree with
-- PALLET_NAMES: so the error built from a registered code carries the name of the row and the
-- pallet that the index in the code stands for.
pub parse_registered :
    (x : ChainErrorCode) (message : String)
    → Memᴰ x chain_entries
    → let e = parse_chain_error_text x.code message in
      (lookup_chain_error x.code ≡ some x)
      × (e.code ≡ x.code)
      × (e.name ≡ x.name)
      × (name_of (pallet_index x) ≡ some e.pallet)
unfolding parse_chain_error_text
parse_registered x message m =
    let found : lookup_chain_error x.code ≡ some x =
      unfold lookup_chain_error in get-build chain_entries [] x entries_distinct m in
    rw found (refl, refl, refl, named_entry chain_entries x entries_named_right m)
