-- ===== src/Witnesses/Tables.antt =====
-- src/deepx_sdk/_transaction_manager.py and _error_codes.py on concrete inputs.
use deepx_python_sdk.Prelude.{ℕ, ◌≡◌, refl, none, some, [], ◌∷◌, arith, string_eq}
use deepx_python_sdk.Status.{submitted, dropped}
use deepx_python_sdk.Ticket.{TxUpdate}
use deepx_python_sdk.Manager.{Handle, Manager, new_manager, register}
use deepx_python_sdk.Manager.Bounds.{
  IsBounded, starts, registers, updates, perform_all, IsBounded-always,
}
use deepx_python_sdk.Registry.{lookup_chain_error, pallet_index, parse_chain_error_text}
use deepx_python_sdk.Registry.Entry.{ChainErrorCode, entry}
use deepx_python_sdk.Registry.Laws.{name_of, parse_registered}
use mathlib.Core.List.{Memᴰ}

abbrev older : Handle
older = record { identity = 1; tx_hash = "0xaa"; cloid = some 8 }

abbrev newer : Handle
newer = record { identity = 2; tx_hash = "0xbb"; cloid = none }

abbrev dropped_update : TxUpdate
dropped_update = record {
  status = dropped;
  previous_status = submitted;
  timestamp = 3;
  node_status = none;
  block_hash = none;
  extrinsic_hash = none;
  error = none;
}

abbrev two_handles : Manager ℕ
two_handles = (register newer (register older (new_manager 10 1)).0).0

IsBounded-always_example : IsBounded (
    perform_all
      (starts ∷ registers older ∷ updates older dropped_update 5 ∷ [])
      (new_manager {S = ℕ} 10 1))
IsBounded-always_example =
    IsBounded-always 10 1 (starts ∷ registers older ∷ updates older dropped_update 5 ∷ [])

newer_is_other : newer.identity ≡ older.identity → ⊥
newer_is_other h = omega (arith, h)

abbrev first_row : ChainErrorCode
first_row = entry "19_0" "SubaccountNotInit" "Subaccount" "Subaccount not initialized."

parse_registered_example :
    let e = parse_chain_error_text "19_0" "m" in
    (lookup_chain_error "19_0" ≡ some first_row)
    × (e.code ≡ "19_0")
    × (e.name ≡ "SubaccountNotInit")
    × (name_of (pallet_index first_row) ≡ some e.pallet)
parse_registered_example = parse_registered first_row "m" (Memᴰ.head refl)
