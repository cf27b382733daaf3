-- ===== src/Telegram/Callbacks.antt =====
-- When the callback of a button runs, and what the webhook answers.
use goblocks.Prelude.Eq.{==_refl, nat_eq, int_eq, string_eq}
use goblocks.Prelude.Int.{ℤ, pos, negsuc, ◌≤ℤ◌, ◌<ℤ◌}
use goblocks.Prelude.Map.{get, delete, get-put, get-delete}
use goblocks.Prelude.{
  ℕ, zero, suc, ◌+◌, ◌≤◌, String, ◌≡◌, refl, sym, ap, ◌∙◌, ◌⊎◌, inl, inr, false, Option, none, some,
  List, [], ◌∷◌, ◌++◌, map, append-nil, append_assoc, arith, Option-cases, length, get_elem?,
}
use goblocks.Telegram.{
  UserCallback, Tg, Message, value, panic, nth, or_empty, create_message, add_callback, with_button,
  run_callback, callback, numbered,
}

module _ {S : Type 0} where
  -- the buttons of a fresh message, added in order
  abbrev pub with_buttons :
      Tg S → Message → List (String × Option (UserCallback S)) → Tg S × Message
  with_buttons t m [] = (t, m)
  with_buttons t m (b ∷ bs) = let (t', m') = with_button t m b.0 b.1 in with_buttons t' m' bs

  with_buttons_kept :
      (t : Tg S) (m : Message) (bs : List (String × Option (UserCallback S)))
      (fns : List (Option (UserCallback S)))
      → or_empty (get t.callbacks m.id) ≡ fns
      → let (t', m') = with_buttons t m bs in
        (or_empty (get t'.callbacks m.id) ≡ fns ++ map (λ b. b.1) bs)
        × (m'.id ≡ m.id)
        × (m'.buttons ≡ m.buttons ++ map (λ b. b.0) bs)
        × (t'.state ≡ t.state)
  unfolding with_button add_callback
  with_buttons_kept t m [] fns h =
      (h ∙ sym (append-nil fns), refl, sym (append-nil m.buttons), refl)
  with_buttons_kept t m (b ∷ bs) fns h =
      let m' = (with_button t m b.0 b.1).1 in
      let t' = (with_button t m b.0 b.1).0 in
      let (fs, same, names, kept) = with_buttons_kept t' m' bs (fns ++ b.1 ∷ []) (
        rw
          (
            get-put t.callbacks m.id m.id (or_empty (get t.callbacks m.id) ++ b.1 ∷ []),
            ==_refl m.id,
            h,
          )
          refl) in
      (fs ∙ append_assoc fns (b.1 ∷ []) _, same, names ∙ append_assoc m.buttons (b.0 ∷ []) _, kept)

get_elem?-map :
    {A B : Type 0} (f : A → B) (xs : List A) (i : ℕ) (x : A)
    → get_elem? xs i ≡ some x
    → get_elem? (map f xs) i ≡ some (f x)
get_elem?-map f [] i x h = ground arith
get_elem?-map f (y ∷ xs) zero x h = ground arith
get_elem?-map f (y ∷ xs) (suc i) x h = get_elem?-map f xs i x h

get_elem?-numbered :
    (id : ℤ) (k : ℕ) (names : List String) (i : ℕ) (x : String)
    → get_elem? names i ≡ some x
    → get_elem? (numbered id k names) i ≡ some (x, id, k + i)
unfolding numbered
get_elem?-numbered id k [] i x h = ground arith
get_elem?-numbered id k (y ∷ names) zero x h = ground (arith)
get_elem?-numbered id k (y ∷ names) (suc i) x h =
    rw (get_elem?-numbered id (suc k) names i x h) (ap (λ n. some (x, id, n)) (omega arith))

get_elem?_end : {A : Type 0} (a : List A) (n : ℕ) → length a ≤ n → get_elem? a n ≡ none
get_elem?_end [] n h = refl
get_elem?_end (x ∷ a) zero h = absurd (omega arith)
get_elem?_end (x ∷ a) (suc n) h = get_elem?_end a n (omega arith)

nth_outside :
    {A : Type 0} (a : List A) (i : ℤ) → (i <ℤ pos 0) ⊎ (pos (length a) ≤ℤ i) → nth a i ≡ panic
unfolding nth
nth_outside a (negsuc n) outside = refl
nth_outside a (pos n) outside =
    rw
      (
        nth,
        get_elem?_end a n (elim outside [
          | inl below ↦ absurd (omega (arith, below))
          | inr above ↦ omega (arith, above)
        ]),
      )
      refl

module _ {S : Type 0} where
  callback_found :
      (t : Tg S) (id : ℤ) (i : ℕ) (fn : UserCallback S) (s : S)
      → t.state ≡ s
      → get_elem? (or_empty (get t.callbacks id)) i ≡ some (some fn)
      → callback t id (pos i)
        ≡ value
            (record t { callbacks = delete t.callbacks id; state = (fn s).0 }, (fn s).1, (fn s).2)
  unfolding callback
  callback_found t id i fn s now h = elim (Option-cases (get t.callbacks id)) [
    | inl none_there ↦ ground (arith)
    | inr (a, there) ↦
        let here : get_elem? a i ≡ some (some fn) =
          ap (λ o. get_elem? (or_empty o) i) (sym there) ∙ h in
        rw (callback, there, nth, here, run_callback, now) refl
  ]

  callback_gone :
      (t : Tg S) (id j : ℤ)
      → callback (record t { callbacks = delete t.callbacks id }) id j
        ≡ value (record t { callbacks = delete t.callbacks id }, "", false)
  unfolding callback
  callback_gone t id j = rw (callback, get-delete t.callbacks id id, ==_refl id) refl

  -- A button index that is negative or not below the number of the message's buttons panics.
  pub forged_panics :
      (t : Tg S) (id i : ℤ) (a : List (Option (UserCallback S)))
      → get t.callbacks id ≡ some a
      → (i <ℤ pos 0) ⊎ (pos (length a) ≤ℤ i)
      → callback t id i ≡ panic
  unfolding callback
  forged_panics t id i a there outside = rw (callback, there, nth_outside a i outside) refl

  -- The buttons added to a fresh message, whose number no earlier message has: button `i` carries
  -- the message's number and `i`; pressing it runs its callback once on the state of that moment,
  -- and afterwards no button of the message does anything but report a failure.
  pub callback-with_buttons :
      (t : Tg S) (content : String) (bs : List (String × Option (UserCallback S))) (i : ℕ)
      (label : String) (fn : UserCallback S)
      → get t.callbacks (pos (suc t.msg_id)) ≡ none
      → get_elem? bs i ≡ some (label, some fn)
      → let made = create_message t content in
        let added = with_buttons made.0 made.1 bs in
        let id = pos (suc t.msg_id) in
        let pressed = record added.0 {
          callbacks = delete added.0.callbacks id;
          state = (fn t.state).0;
        } in
        (get_elem? (numbered added.1.id 0 added.1.buttons) i ≡ some (label, id, i))
        × (callback added.0 id (pos i) ≡ value (pressed, (fn t.state).1, (fn t.state).2))
        × ((j : ℤ) → callback pressed id j ≡ value (pressed, "", false))
  unfolding create_message
  callback-with_buttons t content bs i label fn fresh here =
      let id = pos (suc t.msg_id) in
      let made = create_message t content in
      let added = with_buttons made.0 made.1 bs in
      let (fns, same, names, kept) = with_buttons_kept made.0 made.1 bs [] (rw (fresh) refl) in
      (
        rw (same, names)
            (get_elem?-numbered id 0 (map (λ b. b.0) bs) i label (get_elem?-map _ bs i _ here)
              ∙ ap (λ n. some (label, id, n)) (omega arith)),
        callback_found added.0 id i fn t.state kept
            (ap (λ l. get_elem? l i) fns ∙ get_elem?-map _ bs i _ here),
        λ j. callback_gone (record added.0 { state = (fn t.state).0 }) id j,
      )
