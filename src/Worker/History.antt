-- ===== src/Worker/History.antt =====
-- The cached history of a session is the newest part of what was sent for it.
use crispy_enigma.Base.{
  ◌≡◌, refl, ◌∙◌, ap, ℕ, ◌+◌, ◌*◌, suc, zero, Bool-cases, inl, inr, List, [], ◌∷◌, if◌then◌else◌,
  ◌==◌, take, ltb, arith,
}
use crispy_enigma.Wallet.Sessions.{HistoryItem}
use crispy_enigma.Messages.{Job}
use crispy_enigma.Worker.{Cache, empty_cache, cached, half_day, process_session}

-- The cache after jobs that were processed at some times, the newest first.
unfoldable pub cache_after : List (ℕ × Job) → Cache
cache_after [] = empty_cache
cache_after ((time, job) ∷ older) = process_session time job (cache_after older)

-- What a player of a session has not lost at a time: the items sent for it, back to where it last
-- ended or where more than half a day went by without one, the newest first.
unfoldable pub items_kept : ℕ → ℕ → List (ℕ × Job) → List HistoryItem
items_kept now session [] = []
items_kept now session ((time, Job.realtime job) ∷ older) = items_kept now session older
items_kept now session ((time, Job.ended event) ∷ older) =
    let items = items_kept now session older in if session == event.session then [] else items
items_kept now session ((time, Job.history s item) ∷ older) =
    let others = items_kept now session older in
    let before = items_kept time session older in
    if session == s
    then (if ltb now (time + 1_000 * half_day) then item ∷ before else [])
    else others

take-take-suc {ℓ} : {A : Type ℓ} (n : ℕ) (xs : List A) → take n (take (suc n) xs) ≡ take n xs
take-take-suc zero xs = refl
take-take-suc (suc n) [] = refl
take-take-suc (suc n) (x ∷ xs) = ap (λ ys. x ∷ ys) (take-take-suc n xs)

-- After any jobs of the worker, what is read from the cache at any time for a session is the newest
-- 50 of the items sent for it since it last ended and since half a day last went by without an item
-- of that session, the newest first.
pub cache_after_lem :
    (session now : ℕ) (jobs : List (ℕ × Job))
    → cached now session (cache_after jobs) ≡ take 50 (items_kept now session jobs)
unfolding cache_after items_kept process_session cached
cache_after_lem session now [] = refl
cache_after_lem session now ((time, Job.realtime job) ∷ older) = cache_after_lem session now older
cache_after_lem session now ((time, Job.ended event) ∷ older) =
    elim (Bool-cases (session == event.session)) [
      | inl e ↦ rw e refl
      | inr e ↦ rw e (cache_after_lem session now older)
    ]
cache_after_lem session now ((time, Job.history s item) ∷ older) =
    elim (Bool-cases (session == s)) [
      | inl e ↦
          let same : s ≡ session = grind arith in
          let kept : cached time s (cache_after older) ≡ take 50 (items_kept time session older) =
            ap (λ key. cached time key (cache_after older)) same
            ∙ cache_after_lem session time older in
          elim (Bool-cases (ltb now (time + 1_000 * half_day))) [
            | inl live ↦
                rw (e, live)
                  (ap (λ items. item ∷ take 49 items) kept
                    ∙ ap (λ items. item ∷ items) (take-take-suc 49 (items_kept time session older)))
            | inr over ↦ rw (e, over) refl
          ]
      | inr e ↦ rw e (cache_after_lem session now older)
    ]
