-- ===== src/Trading/Rates.antt =====
-- The numbers of trading that a customer's quote depends on (bank/trading.js): the constants, the
-- fee, the conversions between coin and money.
use agents_playground.Prelude.{ℕ, ◌+◌, ◌-◌, ◌*◌, ◌/◌, List, [], ◌∷◌, ◌==◌, ◌&&◌, leb, if◌then◌else◌}
use agents_playground.Db.{Coin, Trade, Db}

-- `ATOMS_PER_COIN`
abbrev pub atoms_per_coin : ℕ
atoms_per_coin = 100000000

-- `QUOTE_SECONDS`
abbrev pub quote_seconds : ℕ
quote_seconds = 15

-- `FEE_MIN_BP`
abbrev pub fee_min_bp : ℕ
fee_min_bp = 10

-- `VOLUME_WINDOW_MS`
abbrev pub volume_window_ms : ℕ
volume_window_ms = 30 * 86400000

-- What the source computes in floating point, from whole numbers to whole numbers. `price` is
-- `market.priceMicrosAt` at the push that `pressureFor` reads off the customer's trades;
-- `atoms_for_cents` and `cents_for_atoms` are the functions of trading.js; `share c p w` is
-- `Math.round((c * p) / w)`; `discount v` is what is left of the fee's span at a volume,
-- `Math.round((FEE_MAX_BP - FEE_MIN_BP) * (1 - Math.tanh(v / FEE_VOLUME_SCALE_CENTS)))`.
pub record Market : Type 0 where
  pub price : ℕ → Coin → ℕ → List Trade → ℕ
  pub atoms_for_cents : ℕ → ℕ → ℕ
  pub cents_for_atoms : ℕ → ℕ → ℕ
  pub share : ℕ → ℕ → ℕ → ℕ
  pub discount : ℕ → ℕ

-- What a customer has traded since a time.
abbrev pub volume_since : ℕ → ℕ → List Trade → ℕ
volume_since user_id since [] = 0
volume_since user_id since (t ∷ ts) =
    if t.user_id == user_id && leb since t.created_at
    then t.gross_cents + volume_since user_id since ts
    else volume_since user_id since ts

-- `feeBasisPointsFor`
unfoldable pub fee_basis_points_for : Market → ℕ → Db → ℕ
fee_basis_points_for m user_id db =
    fee_min_bp + m.discount (volume_since user_id (db.now - volume_window_ms) db.trades)

-- `Math.round((amount * feeBasisPoints) / 10_000)`: a half rounds up.
abbrev pub fee_of : ℕ → ℕ → ℕ
fee_of amount basis_points = (amount * basis_points + 5000) / 10000
