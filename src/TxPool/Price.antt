-- ===== src/TxPool/Price.antt =====
-- The price rule of a box: no transaction in it is cheaper than the first one.
use simple_standalone_versio.Base.{
  ◌<◌, ◌≤◌, ◌≡◌, ◌≢◌, some, List, [], ◌∷◌, leb, All, All-append, arith, Bool-cases, Option-cases,
  inl, inr,
}
use simple_standalone_versio.Types.{Transaction}
use simple_standalone_versio.TxPool.SortedTxs.{Block, gas_price, push, push_last, replace, pop}

-- the comment at `SortedTxs.GasPrice` asks for this
abbrev pub IsPriced : List Transaction → Type 0
IsPriced txs = All (λ (t : Transaction). gas_price txs ≤ t.gas_price) txs

abbrev pub ArePriced : List Block → Type 0
ArePriced blks = All (λ (b : Block). IsPriced b.txs) blks

push-IsPriced :
    (txs : List Transaction) (tx : Transaction)
    → IsPriced txs
    → gas_price txs ≤ tx.gas_price
    → IsPriced (push txs tx)
unfolding push gas_price
push-IsPriced [] tx h k = (omega arith, tt)
push-IsPriced (t ∷ txs) tx h k =
    (h.0, All-append (λ (u : Transaction). t.gas_price ≤ u.gas_price) txs (tx ∷ []) h.1 (k, tt))

-- Where the last box takes a transaction, the price rule goes on to hold in every box.
pub push_last-ArePriced :
    (blks : List Block) (tx : Transaction) (blks' : List Block)
    → push_last blks tx ≡ some blks'
    → ArePriced blks
    → ArePriced blks'
unfolding push_last
push_last-ArePriced [] tx blks' h k = cc
push_last-ArePriced (b ∷ []) tx blks' h k = elim (Bool-cases (leb (gas_price b.txs) tx.gas_price)) [
  | inl e ↦
      let shape : record b { txs = push b.txs tx } ∷ [] ≡ blks' = ground arith in
      rw (← shape) (push-IsPriced b.txs tx k.0 (ground arith), tt)
  | inr e ↦ absurd (ground arith)
]
push_last-ArePriced (b ∷ c ∷ blks) tx blks' h k = elim (Option-cases (push_last (c ∷ blks) tx)) [
  | inl e ↦ absurd (ground arith)
  | inr (rest, e) ↦
      let shape : b ∷ rest ≡ blks' = ground arith in
      rw (← shape) (k.0, push_last-ArePriced (c ∷ blks) tx rest e k.1)
]

-- Replacing the first transaction of a box by a better paid one breaks the rule as soon as the box
-- holds another transaction that pays less than the new one.
pub replace_first_breaks_IsPriced :
    (first second tx : Transaction) (txs : List Transaction)
    → first.nonce ≡ tx.nonce
    → second.gas_price < tx.gas_price
    → ¬ IsPriced (replace (first ∷ second ∷ txs) tx)
unfolding replace gas_price
replace_first_breaks_IsPriced first second tx txs same cheaper h = ground arith

-- Popping the first transaction breaks it too, where the second one pays more than the third.
pub pop_breaks_IsPriced :
    (first second third : Transaction) (txs : List Transaction)
    → third.gas_price < second.gas_price
    → ¬ IsPriced (pop (first ∷ second ∷ third ∷ txs)).1
unfolding pop gas_price
pop_breaks_IsPriced first second third txs cheaper h = omega arith

-- A replacement is compared with the first price of the box and not with the price that it replaces:
-- it can take the place of a better paid transaction with its nonce.
pub replace_lowers_price :
    (first old tx : Transaction) (txs : List Transaction)
    → first.nonce ≢ tx.nonce
    → old.nonce ≡ tx.nonce
    → first.gas_price ≤ tx.gas_price
    → tx.gas_price < old.gas_price
    → (gas_price (first ∷ old ∷ txs) ≤ tx.gas_price)
      × (replace (first ∷ old ∷ txs) tx ≡ first ∷ tx ∷ txs)
unfolding replace gas_price
replace_lowers_price first old tx txs other same enough lower = (enough, ground arith)
