-- ===== src/Rpc/Order.antt =====
-- src/deepx_sdk/_rpc_transport.py: the order in which a pool is tried, and the endpoint that a
-- success makes the active one.
use mathlib.Core.Path.{subst}
use mathlib.Core.List.{Perm, perm_append_comm}
use deepx_python_sdk.Prelude.{
  ap, ℕ, zero, suc, ◌<◌, ◌≡◌, refl, inl, inr, String, true, Option, if◌then◌else◌, none, some, List,
  [], ◌∷◌, ◌++◌, Option-cases, Bool-cases, take, drop, length, str_eq, eq_iff, arith, member,
  string_eq,
}
use deepx_python_sdk.Rpc.Pool.{
  RpcEndpointPool, item, active, ordered, index_of, next_index, move_to, mark_success,
}

-- The active index is that of an endpoint.
abbrev pub IsValid : RpcEndpointPool → Type 0
IsValid pool = pool.active_index < length pool.endpoints

split_at : (i : ℕ) (es : List String) → take i es ++ drop i es ≡ es
split_at zero es = refl
split_at (suc i) [] = refl
split_at (suc i) (e ∷ es) = ap (λ r. e ∷ r) (split_at i es)

item_inside :
    (i : ℕ) (es : List String)
    → i < length es
    → (e : String) × (item i es ≡ some e) × (drop i es ≡ e ∷ drop (suc i) es)
unfolding item
item_inside i [] h = absurd (omega arith)
item_inside zero (e ∷ es) h = (e, refl, refl)
item_inside (suc i) (e ∷ es) h = item_inside i es (omega arith)

order : (i : ℕ) (es : List String) → Perm (drop i es ++ take i es) es
order i es =
    subst (Perm (drop i es ++ take i es)) (split_at i es) (perm_append_comm (drop i es) (take i es))

-- A request over a pool tries the active endpoint first and then every other one, each as often as
-- the pool lists it.
pub ordered_lem :
    (pool : RpcEndpointPool)
    → IsValid pool
    → (e : String) × (rest : List String) × (active pool ≡ some e)
      × (ordered pool ≡ e ∷ rest)
      × Perm (ordered pool) pool.endpoints
unfolding active ordered
ordered_lem pool h =
    let (e, i, d) = item_inside pool.active_index pool.endpoints h in
    let rest =
      drop (suc pool.active_index) pool.endpoints ++ take pool.active_index pool.endpoints in
    (
      e,
      rest,
      i,
      ap (λ x. x ++ take pool.active_index pool.endpoints) d,
      order pool.active_index pool.endpoints,
    )

next_index_inv :
    (o : Option ℕ) (i : ℕ) → next_index o ≡ some i → (j : ℕ) × (o ≡ some j) × (i ≡ suc j)
unfolding next_index
next_index_inv none i h = absurd (cc h)
next_index_inv (some j) i h = (j, refl, cc)

index_of_lem :
    (e : String) (es : List String) (i : ℕ)
    → index_of e es ≡ some i
    → (item i es ≡ some e) × (i < length es)
unfolding index_of item
index_of_lem e [] i h = absurd (cc h)
index_of_lem e (x ∷ es) i h = elim (Bool-cases (str_eq x e)) [
  | inl same ↦
      let zeroth : i ≡ 0 = cc (rw same at h) in
      rw zeroth (ap some ((eq_iff x e).0 same), omega arith)
  | inr other ↦
      let (j, at_j, next) = next_index_inv (index_of e es) i (rw other at h) in
      let (found, inside) = index_of_lem e es j at_j in rw next (found, omega arith)
]

index_of-member :
    (e : String) (es : List String) → member e es ≡ true → (i : ℕ) × (index_of e es ≡ some i)
unfolding index_of member next_index
index_of-member e [] h = absurd (cc h)
index_of-member e (x ∷ es) h = elim (Bool-cases (str_eq x e)) [
  | inl same ↦ (0, rw same refl)
  | inr other ↦
      let (i, found) = index_of-member e es (rw other at h) in (suc i, rw (other, found) refl)
]

some_inv : {a b : String} → some a ≡ some b → a ≡ b
some_inv h = cc

member-append :
    (e : String) (xs ys : List String)
    → member e (xs ++ ys) ≡ (if member e xs then true else member e ys)
unfolding member
member-append e [] ys = refl
member-append e (x ∷ xs) ys = ground (arith, member-append e xs ys)

pub member_middle :
    (e : String) (before after : List String) → member e (before ++ (e ∷ after)) ≡ true
unfolding member
member_middle e [] after = ground (arith, eq_iff e e)
member_middle e (x ∷ before) after = ground (arith, member_middle e before after)

-- what a pool tries is one of its endpoints
pub ordered-member :
    (e : String) (pool : RpcEndpointPool)
    → member e (ordered pool) ≡ true
    → member e pool.endpoints ≡ true
unfolding ordered
ordered-member e pool h =
    let front = take pool.active_index pool.endpoints in
    let back = drop pool.active_index pool.endpoints in
    let whole = member-append e front back in
    let turned = member-append e back front in
    let same = rw (split_at pool.active_index pool.endpoints) at whole in
    ground (arith, same, turned, h)

item-member : (e : String) (i : ℕ) (es : List String) → item i es ≡ some e → member e es ≡ true
unfolding item member
item-member e i [] h = absurd (cc h)
item-member e zero (x ∷ es) h =
    let same : str_eq x e ≡ true = (eq_iff x e).1 (some_inv h) in rw same refl
item-member e (suc i) (x ∷ es) h = elim (Bool-cases (str_eq x e)) [
  | inl same ↦ rw same refl
  | inr other ↦ rw other (item-member e i es h)
]

pub active-member :
    (e : String) (pool : RpcEndpointPool) → active pool ≡ some e → member e pool.endpoints ≡ true
unfolding active
active-member e pool h = item-member e pool.active_index pool.endpoints h

pub mark_success-endpoints :
    (e : String) (pool : RpcEndpointPool) → (mark_success e pool).endpoints ≡ pool.endpoints
unfolding mark_success move_to
mark_success-endpoints e pool = elim (Option-cases (index_of e pool.endpoints)) [
  | inl missing ↦ rw missing refl
  | inr (i, found) ↦ rw found refl
]

pub mark_success-active :
    (e : String) (pool : RpcEndpointPool)
    → member e pool.endpoints ≡ true
    → active (mark_success e pool) ≡ some e
unfolding mark_success active move_to
mark_success-active e pool h =
    let (i, found) = index_of-member e pool.endpoints h in
    rw found (index_of_lem e pool.endpoints i found).0

pub mark_success-IsValid :
    (e : String) (pool : RpcEndpointPool) → IsValid pool → IsValid (mark_success e pool)
unfolding mark_success move_to
mark_success-IsValid e pool h = elim (Option-cases (index_of e pool.endpoints)) [
  | inl missing ↦ rw missing h
  | inr (i, found) ↦ rw found (index_of_lem e pool.endpoints i found).1
]
