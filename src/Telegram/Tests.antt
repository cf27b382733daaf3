-- ===== src/Telegram/Tests.antt =====
-- The theorems on telegram/ at concrete inputs.
use goblocks.Prelude.Eq.{nat_eq, int_eq, string_eq}
use goblocks.Prelude.Int.{ℤ, pos, negsuc}
use goblocks.Prelude.Map.{get, delete}
use goblocks.Prelude.{
  ℕ, suc, String, ◌≡◌, refl, inl, true, false, Option, none, some, List, [], ◌∷◌, arith, get_elem?,
}
use goblocks.Telegram.{UserCallback, Tg, value, panic, create_message, callback, numbered}
use goblocks.Telegram.Callbacks.{with_buttons, forged_panics, callback-with_buttons}

abbrev count_press : UserCallback ℕ
count_press n = (suc n, " (approved)", true)

abbrev idle : Tg ℕ
idle = record {
  msg_id = 6;
  bot_token = "t";
  chat_id = pos 5;
  callbacks = (pos 2, none ∷ []) ∷ [];
  state = 8;
  calls = [];
}

abbrev buttons : List (String × Option (UserCallback ℕ))
buttons = ("no", none) ∷ ("yes", some count_press) ∷ []

callback-with_buttons_example :
    let made = create_message idle "deploy?" in
    let added = with_buttons made.0 made.1 buttons in
    let pressed = record added.0 { callbacks = delete added.0.callbacks (pos 7); state = 9 } in
    (get_elem? (numbered added.1.id 0 added.1.buttons) 1 ≡ some ("yes", pos 7, 1))
    × (callback added.0 (pos 7) (pos 1) ≡ value (pressed, " (approved)", true))
    × ((j : ℤ) → callback pressed (pos 7) j ≡ value (pressed, "", false))
unfolding get
callback-with_buttons_example =
    callback-with_buttons idle "deploy?" buttons 1 "yes" count_press refl refl

forged_panics_tried : callback idle (pos 2) (negsuc 0) ≡ panic
unfolding get
forged_panics_tried = forged_panics idle (pos 2) (negsuc 0) (none ∷ []) refl (inl (omega arith))
