-- ===== src/Relay/Sends.antt =====
-- internal/relay/service.go: what a call of `Submit` that succeeds has put on the chain.
use txmill.Base.{
  ℕ, ℤ, pos, ◌*◌, ◌%◌, ◌^◌, ◌/◌, ◌≡◌, ◌≢◌, ◌⊎◌, ◌==◌, Bool-cases, refl, sym, ap, subst, ◌∙◌, [],
  ◌∷◌, ◌++◌, Option, none, some, Result, ok, arith, inl, inr, Option-cases, Result-cases,
}
use txmill.Signer.{Signer, use_nonce}
use txmill.Signer.Pool.{Pool, SignerRef, load, deref}
use txmill.Signer.Cells.{deref-checkout}
use txmill.Signer.Lending.{checkout_own}
use txmill.Relay.Chain.{CallMsg, Tx, Signed}
use txmill.Relay.Service.{
  Service, SubmitInput, SubmitResult, World, validate, insert_request, insert_attempt,
  mark_submitted, gas_limit_for, buffered, call_msg, value_of, transaction_for, write_signer,
  record_attempt, sign_and_send, relay_with, broadcast, submit,
}
use txmill.Relay.Courses.{
  Course, invalid, not_inserted, not_loaded, waiting, not_lent, dangling, unreturned, relayed,
  holding, submit-Course,
}

-- The gas limit is that of the input, or 12/10 of the node's estimate for the call where the input
-- has none.
pub data IsLimit (s : Service) (i : SubmitInput) (sig : Signer) (tx : Tx) : Type 0 where
  given : i.gas_limit ≢ 0 → tx.gas_limit ≡ i.gas_limit → IsLimit s i sig tx
  estimated :
      (msg : CallMsg) (est : ℕ)
      → i.gas_limit ≡ 0
      → (msg.from ≡ sig.address) × (msg.to ≡ i.to)
      → (msg.value ≡ tx.value) × (msg.call_data ≡ i.call_data)
      → s.chain.estimate_gas msg ≡ ok est
      → tx.gas_limit ≡ est * 12 % 2 ^ 64 / 10
      → IsLimit s i sig tx

-- A signer of the app, as the loaded pool `p` holds it, signed with its key one transaction: the
-- input's recipient, value and data, at the signer's nonce and the node's price. The node took it; it
-- is the only one that was sent, and the result names it, its signer and the request.
pub record Relayed (s : Service) (i : SubmitInput) (id : ℕ) (p : Pool) (w w' : World)
    (res : SubmitResult) : Type 0 where
  pub by : SignerRef
  pub sig : Signer
  pub tx : Tx
  pub signed : Signed
  pub own : by.app_id ≡ i.app_id
  pub lent : deref p by ≡ some sig
  pub nonce : tx.nonce ≡ sig.nonce % 2 ^ 64
  pub to : tx.to ≡ i.to
  pub value : (i.value ≡ some tx.value) ⊎ ((i.value ≡ none) × (tx.value ≡ pos 0))
  pub call_data : tx.call_data ≡ i.call_data
  pub limited : IsLimit s i sig tx
  pub priced : s.chain.suggest_gas_price ≡ ok tx.gas_price
  pub signs : s.sign_tx s.chain.chain_id tx sig.key ≡ ok signed
  pub accepted : s.chain.send_transaction signed ≡ none
  pub only : w'.sent ≡ w.sent ++ record { by = by; signed = signed } ∷ []
  pub request_id : res.request_id ≡ id
  pub tx_hash : res.tx_hash ≡ signed.hash
  pub signer : res.signer ≡ sig.address

use_nonce_lem : (sig : Signer) → (use_nonce sig).0 ≡ sig.nonce % 2 ^ 64
unfolding use_nonce
use_nonce_lem sig = ground arith

use_nonce_address : (sig : Signer) → (use_nonce sig).1.address ≡ sig.address
unfolding use_nonce
use_nonce_address sig = refl

value_lem : (v : Option ℤ) → (v ≡ some (value_of v)) ⊎ ((v ≡ none) × (value_of v ≡ pos 0))
value_lem none = inr (refl, refl)
value_lem (some v) = inl refl

gas_limit_for-IsLimit :
    (s : Service) (i : SubmitInput) (sig : Signer) (nonce gas price : ℕ)
    → gas_limit_for s sig i ≡ ok gas
    → IsLimit s i sig (transaction_for i nonce gas price)
unfolding gas_limit_for buffered
gas_limit_for-IsLimit s i sig nonce gas price h = elim (Bool-cases (i.gas_limit == 0)) [
  | inr set ↦ given (ground arith) (ground arith)
  | inl unset ↦ elim (Result-cases (s.chain.estimate_gas (call_msg sig i))) [
    | inl (e, failed) ↦ absurd (ground arith)
    | inr (est, done) ↦
        estimated (call_msg sig i) est (ground arith) (refl, refl) (refl, refl) done (ground arith)
  ]
]

module _ (s : Service) (i : SubmitInput) (id : ℕ) (ref : SignerRef) (sig : Signer) where
  broadcast_ok :
      (sig' : Signer) (x : Signed) (attempt : ℕ) (w : World) (res : SubmitResult)
      → (broadcast s ref sig' x id attempt w).0 ≡ ok res
      → (s.chain.send_transaction x ≡ none)
        × ((broadcast s ref sig' x id attempt w).1.sent
            ≡ w.sent ++ record { by = ref; signed = x } ∷ [])
        × (res ≡ record { request_id = id; tx_hash = x.hash; signer = sig'.address })
  unfolding broadcast
  broadcast_ok sig' x attempt w res h = elim (Option-cases (s.chain.send_transaction x)) [
    | inr (e, refused) ↦ absurd (ground arith)
    | inl taken ↦ elim (Result-cases (mark_submitted s id attempt w.db).0) [
      | inl (e, unmarked) ↦ absurd (ground arith)
      | inr (u, marked) ↦ (taken, ground arith, ground arith)
    ]
  ]

  record_attempt_ok :
      (sig' : Signer) (x : Signed) (nonce price : ℕ) (w : World) (res : SubmitResult)
      → (record_attempt s ref sig' x nonce price id w).0 ≡ ok res
      → (s.chain.send_transaction x ≡ none)
        × ((record_attempt s ref sig' x nonce price id w).1.sent
            ≡ w.sent ++ record { by = ref; signed = x } ∷ [])
        × (res ≡ record { request_id = id; tx_hash = x.hash; signer = sig'.address })
  unfolding record_attempt
  record_attempt_ok sig' x nonce price w res h =
      let row = insert_attempt s.pg id sig'.address nonce x.hash price w.db in
      elim (Result-cases row.0) [
        | inl (e, unstored) ↦ absurd (ground arith)
        | inr (attempt, stored) ↦
            let there = record w { db = row.1 } in
            let (taken, sent, is) = broadcast_ok sig' x attempt there res (ground arith) in
            (taken, ground (arith, sent), is)
      ]

  relay_with-Relayed :
      (p : Pool) (w : World) (res : SubmitResult)
      → ref.app_id ≡ i.app_id
      → deref p ref ≡ some sig
      → (relay_with s i ref sig id w).0 ≡ ok res
      → Relayed s i id p w (relay_with s i ref sig id w).1 res
  unfolding relay_with sign_and_send
  relay_with-Relayed p w res own lent h = elim (Result-cases (gas_limit_for s sig i)) [
    | inl (e, unlimited) ↦ absurd (ground arith)
    | inr (gas, limited) ↦ elim (Result-cases s.chain.suggest_gas_price) [
      | inl (e, unpriced) ↦ absurd (ground arith)
      | inr (price, priced) ↦
          let nonce = (use_nonce sig).0 in
          let sig' = (use_nonce sig).1 in
          elim (Result-cases
            (s.sign_tx s.chain.chain_id (transaction_for i nonce gas price) sig.key)) [
              | inl (e, unsigned) ↦ absurd (ground arith)
              | inr (x, signs) ↦
                  let there = write_signer ref sig' w in
                  let (taken, sent, is) =
                    record_attempt_ok sig' x nonce price there res (ground arith) in
                  record {
                    by = ref;
                    sig = sig;
                    tx = transaction_for i nonce gas price;
                    signed = x;
                    own = own;
                    lent = lent;
                    nonce = use_nonce_lem sig;
                    to = refl;
                    value = value_lem i.value;
                    call_data = refl;
                    limited = gas_limit_for-IsLimit s i sig nonce gas price limited;
                    priced = priced;
                    signs = signs;
                    accepted = taken;
                    only = ground (arith, sent);
                    request_id = ap (λ y. y.request_id) is;
                    tx_hash = ap (λ y. y.tx_hash) is;
                    signer = ap (λ y. y.signer) is ∙ use_nonce_address sig;
                  }
            ]
    ]
  ]

module _ (s : Service) (i : SubmitInput) (w : World) where
  abbrev pub Succeeds : SubmitResult → World → Type 0
  Succeeds res w' =
      (validate s i ≡ ok tt)
      × ((insert_request s.pg i w.db).0 ≡ ok res.request_id)
      × Relayed s i res.request_id (load s.backends w.pool i.app_id).1 w w' res

  Course-Succeeds :
      (o : Option (Result SubmitResult)) (w' : World) (res : SubmitResult)
      → Course s i w o w'
      → o ≡ some (ok res)
      → Succeeds res w'
  Course-Succeeds o w' res (invalid e v x d) h = absurd cc
  Course-Succeeds o w' res (not_inserted e v n x d) h = absurd cc
  Course-Succeeds o w' res (not_loaded a e v n l x d) h = absurd cc
  Course-Succeeds o w' res (waiting a v n l c x d) h = absurd cc
  Course-Succeeds o w' res (not_lent a e q v n l c x d) h = absurd cc
  Course-Succeeds o w' res (dangling a ref q v n l c k x d) h = absurd cc
  Course-Succeeds o w' res (unreturned a ref q sig v n l c k b x d) h = absurd cc
  Course-Succeeds o w' res (relayed a ref q sig p v n l c k b x d) h =
      let all = (load s.backends w.pool i.app_id).1 in
      let sends =
        relay_with-Relayed s i a ref sig all (holding s i w q) res
          (checkout_own i.app_id all q s.cancelled ref c)
          (sym (deref-checkout all q i.app_id s.cancelled ref c) ∙ k) (ground arith) in
      let moved : Relayed s i a all w w' res = record {
        by = sends.by;
        sig = sends.sig;
        tx = sends.tx;
        signed = sends.signed;
        own = sends.own;
        lent = sends.lent;
        nonce = sends.nonce;
        to = sends.to;
        value = sends.value;
        call_data = sends.call_data;
        limited = sends.limited;
        priced = sends.priced;
        signs = sends.signs;
        accepted = sends.accepted;
        only = ap (λ y. y.sent) d ∙ sends.only;
        request_id = sends.request_id;
        tx_hash = sends.tx_hash;
        signer = sends.signer;
      } in
      (
        v,
        n ∙ ap ok (sym sends.request_id),
        subst (λ m. Relayed s i m all w w' res) (sym sends.request_id) moved,
      )

  -- A call of `Submit` that succeeds was valid and stored its request under the id that it returns,
  -- and exactly one transaction was sent, which the node accepted: signed by the key of the signer of
  -- the calling app whose address it returns, as the loaded pool held that signer, with the signer's
  -- nonce, the input's recipient, value (0 where it has none) and data, the node's price, and the gas
  -- limit of the input or, where that is 0, the node's estimate times 12, as a uint64, by 10. The hash
  -- that it returns is that of the signed transaction.
  pub submit_sends :
      (res : SubmitResult) → (submit s i w).0 ≡ some (ok res) → Succeeds res (submit s i w).1
  submit_sends res h = Course-Succeeds _ _ res (submit-Course s i w) h
