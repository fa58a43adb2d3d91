-- ===== src/Operator/Log/Audit.antt =====
-- The auditor's check of the chain against a log that `append` alone wrote.
use nymora.Prelude.{
  ℕ, suc, ◌+◌, ◌≡◌, refl, sym, ◌∙◌, ap, true, some, List, [], ◌∷◌, ◌++◌, arith, length,
  length-append, get_elem?, bytes_eq_refl, append_assoc, append-nil,
}
use nymora.Prelude.Bytes.{Bytes}
use nymora.Crypto.Primitives.{Primitives}
use nymora.Operator.Log.{
  LogEntry, SignedHead, TransparencyLog, zero_head, last_head, new, chain_step, head_message,
  append, log_public_key, head_verifies, recompute, head_conforms, all_heads, verify_log,
}

-- A signature by a secret verifies under its public key.
abbrev pub SignVerifies : Primitives → Type 0
SignVerifies prim =
    (sk : Bytes) (m : prim.fld.F) → prim.verify (prim.public_key sk) m (prim.sign sk m) ≡ true

module _ (prim : Primitives) where
  -- The entries, appended in order.
  unfoldable pub append_all : List LogEntry → TransparencyLog → TransparencyLog
  append_all [] log = log
  append_all (entry ∷ entries) log = append_all entries (append prim entry log)

  abbrev pub signed_at : Bytes → ℕ → Bytes → SignedHead
  signed_at seed n d = record {
    sequence = n;
    head = d;
    signature = prim.sign seed (head_message prim n d);
  }

  -- The heads that sign the chain over the entries, from a sequence number and a chain value on.
  unfoldable pub heads_from : Bytes → ℕ → Bytes → List LogEntry → List SignedHead
  heads_from seed n chain [] = []
  heads_from seed n chain (entry ∷ entries) =
      signed_at seed n (chain_step prim chain entry)
      ∷ heads_from seed (n + 1) (chain_step prim chain entry) entries

  -- The last value of the chain.
  unfoldable pub chain_end : Bytes → List LogEntry → Bytes
  chain_end chain [] = chain
  chain_end chain (entry ∷ entries) = chain_end (chain_step prim chain entry) entries

  zero_right : (n : ℕ) → n ≡ n + 0
  zero_right n = omega arith

  zero_left : (n : ℕ) → n ≡ 0 + n
  zero_left n = omega arith

  heads_from-append :
      (seed : Bytes) (n : ℕ) (chain : Bytes) (es : List LogEntry) (e : LogEntry)
      → heads_from seed n chain (es ++ e ∷ [])
        ≡ heads_from seed n chain es
          ++ heads_from seed (n + length es) (chain_end chain es) (e ∷ [])
  unfolding heads_from chain_end
  heads_from-append seed n chain [] e = ap (λ k. heads_from seed k chain (e ∷ [])) (zero_right n)
  heads_from-append seed n chain (x ∷ es) e =
      ap (λ m. signed_at seed n (chain_step prim chain x) ∷ m)
        (heads_from-append seed (n + 1) (chain_step prim chain x) es e
          ∙ ap
              (λ k.
                heads_from seed (n + 1) (chain_step prim chain x) es
                ++ heads_from seed k (chain_end (chain_step prim chain x) es) (e ∷ []))
              (shift n (length es)))
    where
      shift : (a b : ℕ) → a + 1 + b ≡ a + suc b
      shift a b = omega arith

  last_head-heads_from :
      (seed : Bytes) (n : ℕ) (chain : Bytes) (e : LogEntry) (es : List LogEntry)
      → last_head (heads_from seed n chain (e ∷ es)) ≡ chain_end chain (e ∷ es)
  unfolding heads_from chain_end last_head
  last_head-heads_from seed n chain e [] = refl
  last_head-heads_from seed n chain e (x ∷ es) =
      last_head-heads_from seed (n + 1) (chain_step prim chain e) x es

  last_head-written :
      (seed : Bytes) (es : List LogEntry)
      → last_head (heads_from seed 0 zero_head es) ≡ chain_end zero_head es
  last_head-written seed [] = unfold heads_from last_head chain_end in refl
  last_head-written seed (e ∷ es) = last_head-heads_from seed 0 zero_head e es

  -- The log holds exactly the signed chain over its entries.
  unfoldable pub IsWritten : TransparencyLog → Type 0
  IsWritten log = log.heads ≡ heads_from log.seed 0 zero_head log.entries

  append-IsWritten :
      (e : LogEntry) (log : TransparencyLog) → IsWritten log → IsWritten (append prim e log)
  unfolding IsWritten append heads_from
  append-IsWritten e log h =
      ap (λ hs. hs ++ head_at (last_head hs)) h
      ∙ ap (λ c. heads_from log.seed 0 zero_head log.entries ++ head_at c)
          (last_head-written log.seed log.entries)
      ∙ ap
          (λ k.
            heads_from log.seed 0 zero_head log.entries
            ++ heads_from log.seed k (chain_end zero_head log.entries) (e ∷ []))
          (zero_left (length log.entries))
      ∙ sym (heads_from-append log.seed 0 zero_head log.entries e)
    where
      head_at : Bytes → List SignedHead
      head_at c = heads_from log.seed (length log.entries) c (e ∷ [])

  append_all-IsWritten :
      (es : List LogEntry) (log : TransparencyLog) → IsWritten log → IsWritten (append_all es log)
  unfolding append_all
  append_all-IsWritten [] log h = h
  append_all-IsWritten (e ∷ es) log h =
      append_all-IsWritten es (append prim e log) (append-IsWritten e log h)

  append_all-entries :
      (es : List LogEntry) (log : TransparencyLog) → (append_all es log).entries ≡ log.entries ++ es
  unfolding append_all append
  append_all-entries [] log = sym (append-nil log.entries)
  append_all-entries (e ∷ es) log =
      append_all-entries es (append prim e log) ∙ append_assoc log.entries (e ∷ []) es

  get_elem?-middle :
      (pre : List Bytes) (x : Bytes) (post : List Bytes)
      → get_elem? (pre ++ x ∷ post) (length pre) ≡ some x
  get_elem?-middle [] x post = refl
  get_elem?-middle (p ∷ pre) x post = get_elem?-middle pre x post

  head_conforms-written :
      SignVerifies prim
      → (seed : Bytes) (pre post : List Bytes) (d : Bytes)
      → head_conforms prim (pre ++ d ∷ post) (prim.public_key seed) (signed_at seed (length pre) d)
        ≡ true
  unfolding head_conforms head_verifies
  head_conforms-written sound seed pre post d =
      rw (
        get_elem?-middle pre d post,
        bytes_eq_refl d,
        sound seed (head_message prim (length pre) d),
      )

  all_heads-written :
      SignVerifies prim
      → (seed : Bytes) (pre : List Bytes) (chain : Bytes) (es : List LogEntry)
      → all_heads prim
          (pre ++ recompute prim chain es)
          (prim.public_key seed)
          (heads_from seed (length pre) chain es)
        ≡ true
  unfolding all_heads heads_from recompute
  all_heads-written sound seed pre chain [] = refl
  all_heads-written sound seed pre chain (e ∷ es) =
      let d = chain_step prim chain e in
      let more = all_heads-written sound seed (pre ++ d ∷ []) d es in
      rw (head_conforms-written sound seed pre (recompute prim d es) d) (
        ap
          (λ k.
            all_heads prim (pre ++ d ∷ recompute prim d es) (prim.public_key seed)
              (heads_from seed k d es))
          (sym (length-append pre (d ∷ [])))
        ∙ ap
            (λ l.
              all_heads prim l (prim.public_key seed)
                (heads_from seed (length (pre ++ d ∷ [])) d es))
            (sym (append_assoc pre (d ∷ []) (recompute prim d es)))
        ∙ more)

  -- Where signatures by a secret verify under its public key: a log that `append` wrote from `new`
  -- holds the entries in order, and passes `verify_log` under the key of the log.
  pub verify_log-append_all :
      SignVerifies prim
      → (seed : Bytes) (es : List LogEntry)
      → ((append_all es (new prim seed)).entries ≡ es)
        × (verify_log prim
              (append_all es (new prim seed)).entries
              (append_all es (new prim seed)).heads
              (log_public_key prim (append_all es (new prim seed)))
            ≡ true)
  unfolding verify_log log_public_key IsWritten
  verify_log-append_all sound seed es =
      let log = append_all es (new prim seed) in
      (
        unfold new in append_all-entries es (new prim seed),
        rw (append_all-IsWritten es (new prim seed) (unfold new heads_from in refl))
            (all_heads-written sound log.seed [] zero_head log.entries),
      )
