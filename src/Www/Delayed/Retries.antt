-- ===== src/Www/Delayed/Retries.antt =====
-- How the goroutine of a delayed download ends.
use goblocks.Prelude.{
  ℕ, zero, suc, ◌+◌, String, ◌≡◌, refl, sym, ap, ◌∙◌, Bool, true, false, not, Option, some, List,
  [], ◌∷◌, arith, ltb, length,
}
use mathlib.Core.Path.{subst}
use goblocks.File.{Os}
use goblocks.Www.{
  Answer, timed_out, not_sent, responds, Network, get_response, World, Fetched, fetch, fetch_got,
  download,
}
use goblocks.Www.Delayed.{is_timeout, Retry, retry_loop}

abbrev pub answers : Answer → Bool
answers timed_out = false
answers (not_sent e) = true
answers (responds r) = true

abbrev pub total : ℕ → List ℕ → ℕ
total k [] = 0
total zero (d ∷ ds) = d
total (suc k) (d ∷ ds) = d + total k ds

abbrev pub after : ℕ → World → World
after k w = record w { requests = w.requests + k }

abbrev called : Retry → Fetched → String × String × ℕ
called r f = (r.url, f.content_type, f.file_size)

after_zero : (w : World) → after 0 w ≡ w
after_zero w = ap (λ n. record w { requests = n }) (omega arith)

after-after : (k : ℕ) (w : World) → after k (after 1 w) ≡ after (suc k) w
after-after k w = ap (λ n. record w { requests = n }) (omega arith)

add_assoc : (a b c : ℕ) → (a + b) + c ≡ a + (b + c)
add_assoc a b c = omega arith

add_zero : (n : ℕ) → n ≡ n + 0
add_zero n = omega arith

shift : (n j : ℕ) → (n + 1) + j ≡ n + suc j
shift n j = omega arith

module _ (os : Os) (net : Network) where
  abbrev pub attempt : World → Retry → World × Fetched
  attempt w r = download os net w r.url r.root r.path r.fname []

  fetch_got-is_timeout :
      (w : World) (r : Retry) (a : Answer)
      → is_timeout
          (fetch_got os net w.fs r.root r.path r.fname false (get_response net a [])).1.error
        ≡ not (answers a)
  unfolding get_response
  fetch_got-is_timeout w r timed_out = refl
  fetch_got-is_timeout w r (not_sent e) = refl
  fetch_got-is_timeout w r (responds x) = grind arith

  attempt-is_timeout :
      (w : World) (r : Retry)
      → is_timeout (attempt w r).1.error ≡ not (answers (net.answer w.requests r.url))
  unfolding download fetch
  attempt-is_timeout w r = fetch_got-is_timeout w r (net.answer w.requests r.url)

  fetch_got-fs :
      (w : World) (r : Retry) (a : Answer)
      → answers a ≡ false
      → (fetch_got os net w.fs r.root r.path r.fname false (get_response net a [])).0 ≡ w.fs
  unfolding get_response
  fetch_got-fs w r timed_out q = refl
  fetch_got-fs w r (not_sent e) q = cc q
  fetch_got-fs w r (responds x) q = cc q

  attempt-after :
      (w : World) (r : Retry)
      → answers (net.answer w.requests r.url) ≡ false
      → (attempt w r).0 ≡ after 1 w
  unfolding download fetch
  attempt-after w r q =
      let n : suc w.requests ≡ w.requests + 1 = omega arith in
      ap (λ fs. record w { fs = fs; requests = suc w.requests })
        (fetch_got-fs w r (net.answer w.requests r.url) q)
      ∙ ap (λ k. record w { requests = k }) n

  retry_loop-stop :
      (w : World) (r : Retry) (d : ℕ) (ds : List ℕ) (slept : ℕ)
      → answers (net.answer w.requests r.url) ≡ true
      → retry_loop os net w r (d ∷ ds) slept
        ≡ ((attempt w r).0, (slept + d, some (called r (attempt w r).1)))
  unfolding retry_loop
  retry_loop-stop w r d ds slept q = ground (arith, attempt-is_timeout w r, q)

  retry_loop-again :
      (w : World) (r : Retry) (d : ℕ) (ds : List ℕ) (slept : ℕ)
      → answers (net.answer w.requests r.url) ≡ false
      → retry_loop os net w r (d ∷ ds) slept ≡ retry_loop os net (after 1 w) r ds (slept + d)
  unfolding retry_loop
  retry_loop-again w r d ds slept q = ground (
    arith,
    attempt-is_timeout w r,
    q,
    ap (λ v. retry_loop os net v r ds (slept + d)) (attempt-after w r q),
  )

  -- the end of a loop that calls SetContentType after its attempt number `k`, counted from 0
  abbrev pub called_after :
      World → Retry → List ℕ → ℕ → ℕ → World × (ℕ × Option (String × String × ℕ))
  called_after w r delays slept k = (
    (attempt (after k w) r).0,
    (slept + total k delays, some (called r (attempt (after k w) r).1)),
  )

  called_after_shift :
      (w : World) (r : Retry) (d : ℕ) (ds : List ℕ) (slept k : ℕ)
      → called_after (after 1 w) r ds (slept + d) k ≡ called_after w r (d ∷ ds) slept (suc k)
  called_after_shift w r d ds slept k =
      let end = attempt (after (suc k) w) r in
      ap (λ v. ((attempt v r).0, ((slept + d) + total k ds, some (called r (attempt v r).1))))
        (after-after k w)
      ∙ ap (λ n. (end.0, (n, some (called r end.1)))) (add_assoc slept d (total k ds))

  -- If the first `k` attempts of a delayed download time out and the next does not, and the policy
  -- has a delay for it, the goroutine ends with that attempt: it has slept the delays up to there,
  -- and SetContentType is called once, with the type and the size that the attempt gave.
  pub retry_loop-called :
      (w : World) (r : Retry) (delays : List ℕ) (slept k : ℕ)
      → ltb k (length delays) ≡ true
      → ((j : ℕ) → ltb j k ≡ true → answers (net.answer (w.requests + j) r.url) ≡ false)
      → answers (net.answer (w.requests + k) r.url) ≡ true
      → retry_loop os net w r delays slept ≡ called_after w r delays slept k
  unfolding retry_loop
  retry_loop-called w r [] slept k h t a = ground (arith, h)
  retry_loop-called w r (d ∷ ds) slept zero h t a =
      subst
        (λ v.
          retry_loop os net w r (d ∷ ds) slept
          ≡ ((attempt v r).0, (slept + d, some (called r (attempt v r).1))))
        (sym (after_zero w))
        (retry_loop-stop w r d ds slept
          (ap (λ n. answers (net.answer n r.url)) (add_zero w.requests) ∙ a))
  retry_loop-called w r (d ∷ ds) slept (suc k) h t a =
      retry_loop-again w r d ds slept
        (ap (λ n. answers (net.answer n r.url)) (add_zero w.requests) ∙ t 0 (ground arith))
      ∙ retry_loop-called (after 1 w) r ds (slept + d) k (ground (arith, h))
          (λ j q.
            ap (λ n. answers (net.answer n r.url)) (shift w.requests j)
            ∙ t (suc j) (ground (arith, q)))
          (ap (λ n. answers (net.answer n r.url)) (shift w.requests k) ∙ a)
      ∙ called_after_shift w r d ds slept k
