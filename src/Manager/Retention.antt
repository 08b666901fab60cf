-- ===== src/Manager/Retention.antt =====
-- src/deepx_sdk/_transaction_manager.py: which handles eviction forgets.
use deepx_python_sdk.Prelude.{
  ◌<◌, ◌≡◌, ◌≢◌, String, some, List, [], ◌∷◌, ◌++◌, arith, get, get-pop, string_eq, nat_eq, eq_iff,
  All, All-append,
}
use deepx_python_sdk.Manager.{
  Manager, Handle, forget, forget_hash, evict, retain_completed, is_handle,
}

-- a handle other than `g` stays where it is when `g` is forgotten
forget_keeps :
    {S : Type 0} (key tx_hash : String) (g h : Handle) (m : Manager S)
    → g.identity ≢ h.identity
    → get key m.by_hash ≡ some h
    → get key (forget tx_hash g m).by_hash ≡ some h
unfolding forget forget_hash is_handle
forget_keeps key tx_hash g h m ne e =
    ground (arith, get-pop tx_hash key m.by_hash, eq_iff tx_hash key)

-- none of these entries is the handle `h`
abbrev pub Others : Handle → List (String × Handle) → Type 0
Others h cs = All (λ c. c.1.identity ≢ h.identity) cs

evict_keeps :
    {S : Type 0} (key : String) (h : Handle) (cs : List (String × Handle)) (m : Manager S)
    → Others h cs
    → get key m.by_hash ≡ some h
    → get key (evict cs m).by_hash ≡ some h
unfolding evict
evict_keeps key h [] m o e = e
evict_keeps key h ((tx_hash, g) ∷ rest) m o e =
    ground (arith, evict_keeps key h rest (forget tx_hash g m), forget_keeps key tx_hash g h m)

-- A handle that has not completed, or that shares its hash with an older handle that has, is still
-- found under its hash after another handle completes.
pub retain_keeps_Others :
    {S : Type 0} (key : String) (h g : Handle) (m : Manager S)
    → Others h m.completed
    → g.identity ≢ h.identity
    → get key m.by_hash ≡ some h
    → get key (retain_completed g m).by_hash ≡ some h
unfolding retain_completed
retain_keeps_Others key h g m o ne e =
    evict_keeps key h (m.completed ++ ((g.tx_hash, g) ∷ [])) m
      (All-append _ m.completed _ o (ne, tt)) e

evict_keeps_last :
    {S : Type 0} (key : String) (h : Handle) (cs : List (String × Handle)) (m : Manager S)
    → Others h cs
    → 0 < m.max_completed
    → get key m.by_hash ≡ some h
    → get key (evict (cs ++ ((h.tx_hash, h) ∷ [])) m).by_hash ≡ some h
unfolding evict
evict_keeps_last key h [] m o room e = ground arith
evict_keeps_last key h ((tx_hash, g) ∷ rest) m o room e =
    ground (arith, evict_keeps_last key h rest (forget tx_hash g m), forget_keeps key tx_hash g h m)

-- A handle that completes is itself still found under its hash, if the limit is not zero and it had
-- not completed before.
pub retain_keeps_itself :
    {S : Type 0} (key : String) (h : Handle) (m : Manager S)
    → Others h m.completed
    → 0 < m.max_completed
    → get key m.by_hash ≡ some h
    → get key (retain_completed h m).by_hash ≡ some h
unfolding retain_completed
retain_keeps_itself key h m o room e = evict_keeps_last key h m.completed m o room e
