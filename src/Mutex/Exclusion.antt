-- ===== src/Mutex/Exclusion.antt =====
-- The mutex under every interleaving of `lock` and of `unlock` by a call that holds it.
use state_channels_plus.Prelude.{
  append_assoc, append_nil, ℕ, ◌≡◌, ◌⊎◌, inl, inr, refl, sym, ◌∙◌, ap, zero, suc, true, false,
  Option, none, some, List, [], ◌∷◌, ◌++◌, length, arith, if◌then◌else◌,
}
use state_channels_plus.Mutex.{Mutex, lock, unlock}

-- The mutex, the calls between `lock` and `unlock`, and the calls that have asked for it and that
-- have been given it, each in the order in which that happened.
pub record System (W : Type 0) : Type 0 where
  pub mutex : Mutex W
  pub running : List W
  pub requested : List W
  pub granted : List W

module _ {W : Type 0} where
  abbrev pub start : System W
  start = record {
    mutex = record { is_locked = false; queue = [] };
    running = [];
    requested = [];
    granted = [];
  }

  unfoldable pub request : W → System W → System W
  request w s =
      let (resolved, m) = lock w s.mutex in
      record {
        mutex = m;
        running = if resolved then w ∷ s.running else s.running;
        requested = s.requested ++ w ∷ [];
        granted = if resolved then s.granted ++ w ∷ [] else s.granted;
      }

  abbrev pub of_option : Option W → List W
  of_option none = []
  of_option (some w) = w ∷ []

  -- A running call unlocks; the other running calls are `rest`.
  unfoldable pub finish : List W → System W → System W
  finish rest s =
      let (woken, m) = unlock s.mutex in
      record s {
        mutex = m;
        running = of_option woken ++ rest;
        granted = s.granted ++ of_option woken;
      }

  pub data Step : System W → System W → Type 0 where
    requests : (s : System W) (w : W) → Step s (request w s)
    finishes :
        (s : System W) (w : W) (rest : List W) → s.running ≡ w ∷ rest → Step s (finish rest s)

  pub data Reach : System W → Type 0 where
    here : Reach start
    next : {s t : System W} → Reach s → Step s t → Reach t

  -- Nobody runs and nobody waits while the mutex is unlocked, and one call runs while it is locked;
  -- the requests are the grants followed by the calls that wait.
  pub record IsFair (s : System W) : Type 0 where
    pub exclusive :
        ((s.mutex.is_locked ≡ true) × (length s.running ≡ 1))
        ⊎ ((s.mutex.is_locked ≡ false) × (s.running ≡ []) × (s.mutex.queue ≡ []))
    pub first_come : s.requested ≡ s.granted ++ s.mutex.queue

  unlock-queue : (m : Mutex W) → of_option (unlock m).0 ++ (unlock m).1.queue ≡ m.queue
  unfolding unlock
  unlock-queue m =
      elim m.queue
        as (λ q. let u = unlock (record m { queue = q }) in of_option u.0 ++ u.1.queue ≡ q) [
          | [] ↦ refl
          | x ∷ xs ↦ refl
        ]

  lock-held :
      (w : W) (m : Mutex W)
      → m.is_locked ≡ true
      → lock w m ≡ (false, record m { queue = m.queue ++ w ∷ [] })
  unfolding lock
  lock-held w m h = ground arith

  lock-free :
      (w : W) (m : Mutex W) → m.is_locked ≡ false → lock w m ≡ (true, record m { is_locked = true })
  unfolding lock
  lock-free w m h = ground arith

  request-first_come :
      (w : W) (s : System W)
      → IsFair s
      → (request w s).requested ≡ (request w s).granted ++ (request w s).mutex.queue
  unfolding request
  request-first_come w s f = elim f.exclusive [
    | inl (is_held, one) ↦
        rw (lock-held w s.mutex is_held)
          (ap (λ l. l ++ w ∷ []) f.first_come ∙ append_assoc s.granted s.mutex.queue (w ∷ []))
    | inr (unlocked, none_run, none_wait) ↦
        rw (lock-free w s.mutex unlocked, none_wait)
          (let e : s.requested ≡ s.granted = rw (none_wait, append_nil s.granted) at f.first_come in
            rw (e, append_nil (s.granted ++ w ∷ [])) refl)
  ]

  finish-exclusive :
      (s : System W) (rest : List W) (m : Mutex W)
      → m.is_locked ≡ true
      → length rest ≡ 0
      → (((unlock m).1.is_locked ≡ true) × (length (of_option (unlock m).0 ++ rest) ≡ 1))
        ⊎ (((unlock m).1.is_locked ≡ false)
            × (of_option (unlock m).0 ++ rest ≡ [])
            × ((unlock m).1.queue ≡ []))
  unfolding unlock
  finish-exclusive s [] m h r = ground arith
  finish-exclusive s (x ∷ xs) m h r = absurd (ground arith)

  Step-IsFair : {s t : System W} → Step s t → IsFair s → IsFair t
  unfolding request finish lock
  Step-IsFair (requests s w) f = record {
    exclusive = ground (arith, f.exclusive);
    first_come = request-first_come w s f;
  }
  Step-IsFair (finishes s w rest e) f = record {
    exclusive =
        finish-exclusive s rest s.mutex (ground (arith, f.exclusive)) (ground (arith, f.exclusive));
    first_come =
        f.first_come
        ∙ ap (λ q. s.granted ++ q) (sym (unlock-queue s.mutex))
        ∙ sym (append_assoc s.granted (of_option (unlock s.mutex).0) ((unlock s.mutex).1.queue));
  }

  -- In every reachable state, either the mutex is locked and exactly one call runs, or it is unlocked
  -- and no call runs or waits; and the calls are given the mutex in the order of their requests.
  pub Reach-IsFair : {s : System W} → Reach s → IsFair s
  Reach-IsFair here = record { exclusive = ground arith; first_come = refl }
  Reach-IsFair (next r k) = Step-IsFair k (Reach-IsFair r)

  -- Every running call unlocks in turn, `n` times.
  unfoldable pub finish_times : ℕ → System W → System W
  unfolding finish
  finish_times zero s = s
  finish_times (suc n) s = finish_times n (finish [] s)

  finish_times-queue :
      (q g xs r : List W)
      → let t = finish_times (suc (length q)) (record {
        mutex = record { is_locked = true; queue = q };
        running = r;
        requested = xs;
        granted = g;
      }) in
        (t.granted ≡ g ++ q) × (t.mutex.is_locked ≡ false) × (t.running ≡ [])
  unfolding finish_times finish unlock
  finish_times-queue [] g xs r = (refl, refl, refl)
  finish_times-queue (w ∷ q) g xs r =
      let (given, is_free, none_run) = finish_times-queue q (g ++ w ∷ []) xs (w ∷ []) in
      (given ∙ append_assoc g (w ∷ []) q, is_free, none_run)

  -- From a reachable state in which a call runs, once that call and each waiting call have unlocked,
  -- every request has been granted and the mutex is free.
  pub finish_times-all :
      (s : System W)
      → Reach s
      → s.mutex.is_locked ≡ true
      → let t = finish_times (suc (length s.mutex.queue)) s in
        (t.granted ≡ s.requested) × (t.mutex.is_locked ≡ false) × (t.running ≡ [])
  finish_times-all s r h =
      let f = Reach-IsFair r in
      let (given, is_free, none_run) =
        finish_times-queue s.mutex.queue s.granted s.requested s.running in
      rw h (given ∙ sym f.first_come, is_free, none_run)
