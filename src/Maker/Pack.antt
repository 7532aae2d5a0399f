-- ===== src/Maker/Pack.antt =====
-- `Pack` ends, and the block that it leaves is a run of the state machine.
use simple_standalone_versio.Base.{
  ℕ, zero, suc, ◌+◌, ◌<◌, ◌≤◌, ◌≡◌, ◌≢◌, refl, ap, sym, ◌∙◌, Bool, true, false, none, some, List,
  [], ◌∷◌, ◌++◌, ◌==◌, length, All, append-nil, append_assoc, arith, Bool-cases, Option-cases, inl,
  inr,
}
use simple_standalone_versio.Types.{Address, Transaction, Receiption}
use simple_standalone_versio.StatDb.{StatDb}
use simple_standalone_versio.StateMachine.{execute}
use simple_standalone_versio.StateMachine.Execute.{execute_failed}
use simple_standalone_versio.Blockchain.{Body}
use simple_standalone_versio.TxPool.Pool.{Pool}
use simple_standalone_versio.TxPool.Pop.{pop}
use simple_standalone_versio.TxPool.Invariant.{IsValid}
use simple_standalone_versio.TxPool.Taken.{pop-IsValid, pop-Popped, Popped, nothing, took}
use simple_standalone_versio.TxPool.Count.{pending_total, total-pop}
use simple_standalone_versio.Maker.{
  BlockMaker, Outcome, done, append_to_body, record_executed, pack_tx, pack, pack_all,
}

pop-none :
    (order : List Address) (pool : Pool)
    → IsValid pool
    → (pop order pool).0 ≡ none
    → (pop order pool).1 ≡ pool
pop-none order pool v h = go (pop order pool) (pop-Popped order pool v) h
  where
    go : (r : _) → Popped order pool r → r.0 ≡ none → r.1 ≡ pool
    go r (nothing q k) h = ap (λ r. r.1) q
    go r (took addr tx rest after q m e shows) h =
        absurd (let c : some tx ≡ none = ap (λ r. r.0) (sym q) ∙ h in cc c)

module _ (db : StatDb) (from_of : Transaction → Address) where
  status-cases :
      (s : db.State) (tx : Transaction)
      → (execute db from_of s tx).1.status ≢ 0
      → (execute db from_of s tx).1.status ≡ 1
  unfolding execute
  status-cases s tx h = ground arith

  -- the states and the receipts of a list of transactions, executed one after the other
  unfoldable pub exec_all : db.State → List Transaction → db.State × List Receiption
  exec_all s [] = (s, [])
  exec_all s (tx ∷ txs) =
      let r = execute db from_of s tx in let rest = exec_all r.0 txs in (rest.0, r.1 ∷ rest.1)

  -- one round of `Pack` that does not panic
  data Round (m : BlockMaker db) (body : Body) (o : Outcome (Bool × BlockMaker db)) : Type 0 where
    stop :
        (m' : BlockMaker db)
        → o ≡ done (false, m')
        → m'.state ≡ m.state
        → m'.next_body ≡ some body
        → m'.next_header ≡ m.next_header
        → IsValid m'.txpool
        → pending_total m'.txpool ≤ pending_total m.txpool
        → Round m body o
    go_on :
        (m' : BlockMaker db) (tx : Transaction)
        → o ≡ done (true, m')
        → m'.state ≡ (execute db from_of m.state tx).0
        → (execute db from_of m.state tx).1.status ≡ 1
        → m'.next_body ≡ some (append_to_body db from_of body tx (execute db from_of m.state tx).1)
        → m'.next_header ≡ m.next_header
        → IsValid m'.txpool
        → pending_total m'.txpool + 1 ≡ pending_total m.txpool
        → Round m body o

  pack-some :
      (order : List Address) (m : BlockMaker db) (tx : Transaction)
      → (pop order m.txpool).0 ≡ some tx
      → pack db from_of order m
        ≡ pack_tx db from_of (record m { txpool = (pop order m.txpool).1 }) tx
  unfolding pack
  pack-some order m tx e = rw (e, pack) refl

  -- the round after a transaction was popped, which left the maker `m`
  pack_tx-Round :
      (m before : BlockMaker db) (tx : Transaction) (body : Body)
      → IsValid m.txpool
      → m.next_body ≡ some body
      → m.state ≡ before.state
      → m.next_header ≡ before.next_header
      → pending_total m.txpool + 1 ≡ pending_total before.txpool
      → Round before body (pack_tx db from_of m tx)
  unfolding pack_tx record_executed
  pack_tx-Round m before tx body v b s h count =
      let after = (execute db from_of m.state tx).0 in
      elim (Bool-cases ((execute db from_of m.state tx).1.status == 0)) [
        | inl failed ↦
            stop (record m { state = after }) (rw failed refl)
              (execute_failed db from_of m.state tx (ground arith) ∙ s) b h v (omega arith)
        | inr worked ↦
            go_on
              (record m {
                state = after;
                next_body =
                    some (append_to_body db from_of body tx (execute db from_of m.state tx).1);
              })
              tx (rw worked (rw b refl)) (ap (λ t. (execute db from_of t tx).0) s)
              (rw s at (status-cases m.state tx (ground arith)))
              (ap (λ t. some (append_to_body db from_of body tx (execute db from_of t tx).1)) s) h v
              count
      ]

  pack-Round :
      (order : List Address) (m : BlockMaker db) (body : Body)
      → IsValid m.txpool
      → m.next_body ≡ some body
      → Round m body (pack db from_of order m)
  unfolding pack
  pack-Round order m body v b = elim (Option-cases (pop order m.txpool).0) [
    | inl e ↦
        stop (record m { txpool = (pop order m.txpool).1 }) (rw (e, pack) refl) refl b refl
          (pop-IsValid order m.txpool v)
          (omega (arith, ap pending_total (pop-none order m.txpool v e)))
    | inr (tx, e) ↦ rw (pack-some order m tx e) (
        pack_tx-Round (record m { txpool = (pop order m.txpool).1 }) m tx body
          (pop-IsValid order m.txpool v) b refl refl (total-pop order m.txpool tx v e))
  ]

  -- What `Pack` leaves: the transactions `txs` of the block were executed one after the other, each
  -- with success, and their receipts stand in the body in the same order.
  pub record Packed (m m' : BlockMaker db) (body : Body) (txs : List Transaction) : Type 0 where
    pub body_is :
        m'.next_body
        ≡ some (record {
          transactions = body.transactions ++ txs;
          receiptions = body.receiptions ++ (exec_all m.state txs).1;
        })
    pub state_is : m'.state ≡ (exec_all m.state txs).0
    pub succeeded : All (λ (r : Receiption). r.status ≡ 1) (exec_all m.state txs).1
    pub header_is : m'.next_header ≡ m.next_header
    pub pool_valid : IsValid m'.txpool
    pub count : pending_total m'.txpool + length txs ≤ pending_total m.txpool

  stop-Packed :
      (m m' : BlockMaker db) (body : Body)
      → m'.state ≡ m.state
      → m'.next_body ≡ some body
      → m'.next_header ≡ m.next_header
      → IsValid m'.txpool
      → pending_total m'.txpool ≤ pending_total m.txpool
      → Packed m m' body []
  unfolding exec_all
  stop-Packed m m' body s b h v c = record {
    body_is = rw (append-nil body.transactions, append-nil body.receiptions) b;
    state_is = s;
    succeeded = tt;
    header_is = h;
    pool_valid = v;
    count = omega arith;
  }

  step-Packed :
      (m n m' : BlockMaker db) (body : Body) (tx : Transaction) (txs : List Transaction)
      → n.state ≡ (execute db from_of m.state tx).0
      → (execute db from_of m.state tx).1.status ≡ 1
      → n.next_header ≡ m.next_header
      → pending_total n.txpool + 1 ≡ pending_total m.txpool
      → Packed n m' (append_to_body db from_of body tx (execute db from_of m.state tx).1) txs
      → Packed m m' body (tx ∷ txs)
  unfolding exec_all append_to_body
  step-Packed m n m' body tx txs s ok h c p =
      let r = execute db from_of m.state tx in
      let body_is = rw s at p.body_is in
      let succeeded = rw s at p.succeeded in
      record {
        body_is =
            body_is
            ∙ rw
                (
                  append_assoc body.transactions (tx ∷ []) txs,
                  append_assoc body.receiptions (r.1 ∷ []) (exec_all r.0 txs).1,
                )
                refl;
        state_is = p.state_is ∙ ap (λ t. (exec_all t txs).0) s;
        succeeded = (ok, succeeded);
        header_is = p.header_is ∙ h;
        pool_valid = p.pool_valid;
        count = omega (arith, p.count);
      }

  -- Once a block is begun, `Pack` ends, whatever orders the pool's map is read in, and leaves a
  -- block of transactions that were executed one after the other, each with success.
  pub pack_all-Packed :
      (fuel : ℕ) (order_of : ℕ → List Address) (m : BlockMaker db) (body : Body)
      → IsValid m.txpool
      → m.next_body ≡ some body
      → pending_total m.txpool < fuel
      → (m' : BlockMaker db) × (txs : List Transaction) × (pack_all db from_of fuel order_of m
          ≡ done m')
        × Packed m m' body txs
  unfolding pack_all
  pack_all-Packed zero order_of m body v b h = absurd (omega arith)
  pack_all-Packed (suc fuel) order_of m body v b h =
      after (pack db from_of (order_of fuel) m) refl (pack-Round (order_of fuel) m body v b)
        (pack_all-Packed fuel order_of)
    where
      after :
          (o : Outcome (Bool × BlockMaker db))
          → pack db from_of (order_of fuel) m ≡ o
          → Round m body o
          → ((n : BlockMaker db) (body' : Body)
              → IsValid n.txpool
              → n.next_body ≡ some body'
              → pending_total n.txpool < fuel
              → (m' : BlockMaker db) × (txs : List Transaction) × (pack_all db from_of fuel order_of
                    n
                  ≡ done m')
                × Packed n m' body' txs)
          → (m' : BlockMaker db) × (txs : List Transaction) × (pack_all db from_of
                (suc fuel)
                order_of
                m
              ≡ done m')
            × Packed m m' body txs
      after o e (stop m' q s nb nh v' c) ih =
          (m', [], rw (e ∙ q, pack_all) refl, stop-Packed m m' body s nb nh v' c)
      after o e (go_on m' tx q s ok nb nh v' c) ih =
          let (end, txs, eq, p) = ih m' _ v' nb (omega arith) in
          (end, tx ∷ txs, rw (e ∙ q, pack_all) eq, step-Packed m m' end body tx txs s ok nh c p)
