-- ===== src/TxPool/SortedTxs.antt =====
-- A box of pending transactions (txpool/default.go, `DefaultSortedTxs`) and a list of boxes.
use simple_standalone_versio.Base.{
  ℕ, Bool, Option, none, some, List, [], ◌∷◌, ◌++◌, leb, ◌==◌, ◌&&◌, if◌then◌else◌, last,
}
use simple_standalone_versio.Types.{Transaction}

unfoldable pub gas_price : List Transaction → ℕ
gas_price [] = 0
gas_price (first ∷ sorted) = first.gas_price

unfoldable pub push : List Transaction → Transaction → List Transaction
push sorted tx = sorted ++ tx ∷ []

unfoldable pub pop : List Transaction → Option Transaction × List Transaction
pop [] = (none, [])
pop (tx ∷ sorted) = (some tx, sorted)

-- the first transaction with the nonce of `tx` becomes `tx`
unfoldable pub replace : List Transaction → Transaction → List Transaction
replace [] tx = []
replace (old ∷ sorted) tx = if old.nonce == tx.nonce then tx ∷ sorted else old ∷ replace sorted tx

unfoldable pub first_nonce : List Transaction → ℕ
first_nonce [] = 0
first_nonce (first ∷ sorted) = first.nonce

abbrev pub nonce_or_zero : Option Transaction → ℕ
nonce_or_zero none = 0
nonce_or_zero (some tx) = tx.nonce

unfoldable pub last_nonce : List Transaction → ℕ
last_nonce sorted = nonce_or_zero (last sorted)

-- A box on the heap: `id` is its address, since `pool.txs` and `pool.pendings` share it.
pub record Block : Type 0 where
  pub id : ℕ
  pub txs : List Transaction

-- the transactions of the boxes, in order
unfoldable pub flat : List Block → List Transaction
flat [] = []
flat (b ∷ blks) = b.txs ++ flat blks

unfoldable pub last_block_nonce : List Block → Option ℕ
unfolding last_nonce
last_block_nonce blks = elim (last blks) [ none ↦ none | some b ↦ some (last_nonce b.txs) ]

-- `last.Push(tx)`, where the last box's price is at most that of `tx`; `none` asks for a new box
unfoldable pub push_last : List Block → Transaction → Option (List Block)
unfolding gas_price push
push_last [] tx = none
push_last (b ∷ []) tx =
    if leb (gas_price b.txs) tx.gas_price
    then some (record b { txs = push b.txs tx } ∷ [])
    else none
push_last (b ∷ c ∷ blks) tx = elim (push_last (c ∷ blks) tx) [
  | none ↦ none
  | some rest ↦ some (b ∷ rest)
]

-- the test of `replacePendingTx`
unfoldable pub may_replace : Block → Transaction → Bool
unfolding first_nonce last_nonce gas_price
may_replace b tx =
    leb (first_nonce b.txs) tx.nonce
    && (leb tx.nonce (last_nonce b.txs) && leb (gas_price b.txs) tx.gas_price)

-- the loop of `replacePendingTx`: the first box that passes the test takes the transaction
unfoldable pub replace_in_blocks : List Block → Transaction → List Block
unfolding may_replace replace
replace_in_blocks [] tx = []
replace_in_blocks (b ∷ blks) tx =
    if may_replace b tx
    then record b { txs = replace b.txs tx } ∷ blks
    else b ∷ replace_in_blocks blks tx
