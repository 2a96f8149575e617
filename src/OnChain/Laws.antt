-- ===== src/OnChain/Laws.antt =====
-- The bound that the on-chain timestamps give, and the bookkeeping of posted blocks.
use state_channels_plus.Prelude.{
  ℕ, ◌≡◌, ◌⊎◌, refl, inl, inr, Bool, true, some, List, [], ◌∷◌, ◌++◌, zero, suc, get_elem?, any,
  ltb, Result, ok, arith, ◌≤◌, Bool-cases, get_elem?-modify_at, Result-cases,
}
use state_channels_plus.Data.{
  Ethers, Address, Block, SignedBlock, AgreementFlag, decode_block, get_fork, get_height,
  get_block_author,
}
use state_channels_plus.AgreementTypes.{ChainBlock, AgreementFork, Forks, AgreementState}
use state_channels_plus.Forks.{fork_at, is_valid_fork_cnt, push_chain_block, add_chain_block}
use state_channels_plus.Forks.Lookup.{fork_at_of_valid}
use state_channels_plus.OnChain.{
  later_of, latest_from, latest_timestamp, is_post_of, has_posted, queue_block_in, record_post,
  collect_flagged, collect,
}

latest_from-ge : (m l : ℕ) (cbs : List ChainBlock) → l ≤ latest_from m l cbs
unfolding latest_from
latest_from-ge m l [] = omega arith
latest_from-ge m l (cb ∷ cbs) = ground (arith, latest_from-ge m (later_of m l cb) cbs)

pub latest_from-bound :
    (m l : ℕ) (cbs : List ChainBlock) (i : ℕ) (cb : ChainBlock)
    → get_elem? cbs i ≡ some cb
    → cb.transaction_cnt ≤ m
    → cb.timestamp ≤ latest_from m l cbs
unfolding latest_from
latest_from-bound m l [] i cb at low = ground arith
latest_from-bound m l (c ∷ cbs) zero cb at low =
    ground (arith, latest_from-ge m (later_of m l c) cbs)
latest_from-bound m l (c ∷ cbs) (suc i) cb at low =
    latest_from-bound m (later_of m l c) cbs i cb at low

-- The result is the starting value or the timestamp of a post that counts.
pub latest_from-attained :
    (m l : ℕ) (cbs : List ChainBlock)
    → (latest_from m l cbs ≡ l)
      ⊎ ((i : ℕ) × (cb : ChainBlock) × (get_elem? cbs i ≡ some cb)
          × (cb.transaction_cnt ≤ m)
          × (latest_from m l cbs ≡ cb.timestamp))
unfolding latest_from
latest_from-attained m l [] = inl refl
latest_from-attained m l (c ∷ cbs) = elim (latest_from-attained m (later_of m l c) cbs) [
  | inr (i, cb, at, low, e) ↦ inr (suc i, cb, at, low, e)
  | inl e ↦ elim (Bool-cases (ltb m c.transaction_cnt)) [
    | inl above ↦ inl (ground arith)
    | inr counts ↦ elim (Bool-cases (ltb l c.timestamp)) [
      | inl newer ↦ inr (0, c, refl, ground arith, ground arith)
      | inr older ↦ inl (ground arith)
    ]
  ]
]

-- The latest timestamp of a fork up to a height is at least that of every post up to that height,
-- and is 0 or the timestamp of such a post.
pub latest_timestamp-IsMaximum :
    (forks : Forks) (f m t : ℕ) (fk : AgreementFork)
    → fork_at forks f ≡ some fk
    → latest_timestamp forks f m ≡ ok t
    → ((i : ℕ) (cb : ChainBlock)
        → get_elem? fk.chain_blocks i ≡ some cb
        → cb.transaction_cnt ≤ m
        → cb.timestamp ≤ t)
      × ((t ≡ 0)
          ⊎ ((i : ℕ) × (cb : ChainBlock) × (get_elem? fk.chain_blocks i ≡ some cb)
              × (cb.transaction_cnt ≤ m)
              × (t ≡ cb.timestamp)))
unfolding latest_timestamp
latest_timestamp-IsMaximum forks f m t fk found h =
    let e : t ≡ latest_from m 0 fk.chain_blocks = ground arith in
    (
      λ i cb at low. rw e (latest_from-bound m 0 fk.chain_blocks i cb at low),
      rw e (latest_from-attained m 0 fk.chain_blocks),
    )

any-push :
    (p : ChainBlock → Bool) (xs : List ChainBlock) (x : ChainBlock)
    → p x ≡ true
    → any p (xs ++ x ∷ []) ≡ true
any-push p [] x h = ground arith
any-push p (y ∷ xs) x h = ground (arith, any-push p xs x h)

-- A record that `addChainBlock` has written counts as posted.
pub has_posted-add_chain_block :
    (f t : ℕ) (p : Address) (ts : ℕ) (forks forks' : Forks)
    → add_chain_block f t p ts forks ≡ ok forks'
    → has_posted forks' f t p ≡ true
unfolding has_posted add_chain_block
has_posted-add_chain_block f t p ts forks forks' h = elim (Bool-cases (is_valid_fork_cnt forks f)) [
  | inl known ↦
      let (fk, found) = fork_at_of_valid forks f known in
      let c : ChainBlock = record { transaction_cnt = t; participant_adr = p; timestamp = ts } in
      ground (
        arith,
        get_elem?-modify_at (push_chain_block c) f f forks,
        any-push (is_post_of t p) fk.chain_blocks c,
      )
  | inr unknown ↦ absurd (ground arith)
]

-- What a call that returns the flag has done: a flag of misconduct leaves the state as it was, and
-- any other leaves the author of the block posted at its fork and height.
abbrev pub Recorded : AgreementFlag → Block → AgreementState → AgreementState → Type 0
Recorded AgreementFlag.invalid_signature b s s' = s' ≡ s
Recorded AgreementFlag.incorrect_data b s s' = s' ≡ s
Recorded AgreementFlag.double_sign b s s' = s' ≡ s
Recorded flag b s s' = has_posted s'.forks (get_fork b) (get_height b) (get_block_author b) ≡ true

module _ (e : Ethers) where
  record_post_posts :
      (signed : SignedBlock) (b : Block) (ts : ℕ) (s s' : AgreementState)
      → decode_block e signed.encoded_block ≡ ok b
      → record_post e signed ts s ≡ (ok tt, s')
      → has_posted s'.forks (get_fork b) (get_height b) (get_block_author b) ≡ true
  unfolding record_post
  record_post_posts signed b ts s s' hd h =
      let f = get_fork b in
      let t = get_height b in
      let p = get_block_author b in
      elim (Bool-cases (has_posted s.forks f t p)) [
        | inl posted ↦ ground arith
        | inr first ↦ elim (Result-cases (add_chain_block f t p ts s.forks)) [
          | inl (forks', e') ↦ ground (arith, has_posted-add_chain_block f t p ts s.forks forks' e')
          | inr (err, thrown) ↦ absurd (ground arith)
        ]
      ]

  collect_flagged_posts :
      (said : AgreementFlag) (signed : SignedBlock) (b : Block) (ts : ℕ) (s s' : AgreementState)
      (flag : AgreementFlag)
      → decode_block e signed.encoded_block ≡ ok b
      → collect_flagged e said signed ts s ≡ (ok flag, s')
      → (said ≡ flag) × Recorded flag b s s'
  unfolding collect_flagged
  collect_flagged_posts AgreementFlag.invalid_signature signed b ts s s' flag hd h = ground arith
  collect_flagged_posts AgreementFlag.incorrect_data signed b ts s s' flag hd h = ground arith
  collect_flagged_posts AgreementFlag.double_sign signed b ts s s' flag hd h = ground arith
  collect_flagged_posts AgreementFlag.duplicate signed b ts s s' flag hd h =
      ground (arith, record_post_posts signed b ts s s' hd)
  collect_flagged_posts said signed b ts s s' flag hd h =
      elim (Result-cases (queue_block_in e signed s)) [
        | inl (s1, queued) ↦ ground (arith, record_post_posts signed b ts s1 s' hd)
        | inr (err, thrown) ↦ absurd (ground arith)
      ]

  -- A call that returns returns the checker's flag. With READY, NOT_READY or DUPLICATE the block's
  -- author counts as having posted at the block's fork and height; with another flag the state is
  -- unchanged.
  pub collect_posts :
      (checker : AgreementState → SignedBlock → Result AgreementFlag) (signed : SignedBlock)
      (b : Block) (ts : ℕ) (s s' : AgreementState) (flag : AgreementFlag)
      → decode_block e signed.encoded_block ≡ ok b
      → collect e checker signed ts s ≡ (ok flag, s')
      → (checker s signed ≡ ok flag) × Recorded flag b s s'
  unfolding collect
  collect_posts checker signed b ts s s' flag hd h = elim (Result-cases (checker s signed)) [
    | inr (err, thrown) ↦ absurd (ground arith)
    | inl (said, says) ↦ ground (arith, collect_flagged_posts said signed b ts s s' flag hd)
  ]
