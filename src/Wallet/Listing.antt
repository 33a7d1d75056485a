-- ===== src/Wallet/Listing.antt =====
-- The customer's sends, receipts and swaps (bank/wallet.js): `listSends`, `listSwaps`. The tables
-- are kept newest first.
use agents_playground.Prelude.{
  ℕ, Chars, String, Bool, none, some, List, ◌==◌, ◌||◌, keep, take, map,
}
use agents_playground.Db.{WalletSend, Swap, Db}
use agents_playground.Trading.{format_atoms}

pub data Direction : Type 0 where
  outgoing incoming : Direction

pub record SendLine : Type 0 where
  pub id : ℕ
  pub symbol : String
  pub direction : Direction
  pub to_address : Chars
  pub quantity_atoms : ℕ
  pub quantity : Chars
  pub fee_atoms : ℕ
  pub memo : String
  pub delivered : Bool

abbrev direction_of : Bool → Direction
direction_of Bool.true = Direction.outgoing
direction_of Bool.false = Direction.incoming

abbrev pub to_send_line : ℕ → WalletSend → SendLine
to_send_line user_id s = record {
  id = s.id;
  symbol = s.symbol;
  direction = direction_of (s.user_id == user_id);
  to_address = s.to_address;
  quantity_atoms = s.quantity_atoms;
  quantity = format_atoms s.quantity_atoms;
  fee_atoms = s.fee_atoms;
  memo = s.memo;
  delivered = elim s.to_user_id [ none ↦ Bool.false | some _ ↦ Bool.true ];
}

abbrev pub is_party : ℕ → WalletSend → Bool
is_party user_id s =
    s.user_id == user_id || elim s.to_user_id [ none ↦ Bool.false | some u ↦ u == user_id ]

unfoldable pub list_sends : ℕ → ℕ → Db → List SendLine
list_sends user_id limit db =
    map (to_send_line user_id) (take limit (keep (is_party user_id) db.sends))

unfoldable pub list_swaps : ℕ → ℕ → Db → List Swap
list_swaps user_id limit db = take limit (keep (λ s. s.user_id == user_id) db.swaps)
