-- ===== src/Gui/Clipboard.antt =====
-- `set_clipboard_text` of the window (src/gui.rs): its calls of the system in their order, and who
-- owns the memory behind them.
use phobos_wg_client.Base.{
  ℕ, ◌*◌, Bool, true, false, not, ◌&&◌, List, [], ◌∷◌, ◌++◌, ◌≡◌, refl, arith, if◌then◌else◌,
  length, ltb, le→ltb,
}
use phobos_wg_client.Text.{Text}
use phobos_wg_client.Text.Wide.{to_wide}

-- Whether `GlobalAlloc`, `GlobalLock`, `OpenClipboard` and `SetClipboardData` succeed.
pub record ClipAnswers : Type 0 where
  pub allocated : Bool
  pub locked : Bool
  pub opened : Bool
  pub accepted : Bool

pub data ClipCall : Type 0 where
  global_alloc : ℕ → ClipCall
  global_lock : ClipCall
  copy_to : List ℕ → ClipCall
  global_unlock : ClipCall
  open_clipboard : ClipCall
  empty_clipboard : ClipCall
  set_clipboard_data : ClipCall
  global_free : ClipCall
  close_clipboard : ClipCall

abbrev pub hand_over : Bool → List ClipCall
hand_over accepted =
    open_clipboard
    ∷ empty_clipboard
    ∷ set_clipboard_data
    ∷ ((if accepted then [] else global_free ∷ []) ++ close_clipboard ∷ [])

abbrev pub fill : ClipAnswers → List ℕ → List ClipCall
fill a wide =
    if a.locked
    then copy_to wide
      ∷ global_unlock
      ∷ (if a.opened then hand_over a.accepted else open_clipboard ∷ global_free ∷ [])
    else global_free ∷ []

unfoldable pub set_clipboard_text : ClipAnswers → Text → List ClipCall
set_clipboard_text a text =
    let wide = to_wide text in
    global_alloc (length wide * 2) ∷ (if a.allocated then global_lock ∷ fill a wide else [])

-- The block of memory: none, the program's with its size in bytes, whether it is locked and what is
-- written to it, or the clipboard's.
pub data Block : Type 0 where
  no_block : Block
  owned : ℕ → Bool → List ℕ → Block
  given : Block

-- What the calls act on: the block; whether the program holds the clipboard open; its content; and
-- whether every call so far was one that the documentation allows.
pub record Clip : Type 0 where
  pub block : Block
  pub is_open : Bool
  pub content : List ℕ
  pub is_sound : Bool

abbrev pub misuse : Clip → Clip
misuse c = record c { is_sound = false }

-- Only the program's own block is locked, written, unlocked or freed: writing needs it locked and as
-- large as what is written, and what the clipboard has been given is not to be freed.
abbrev pub lock_block : Clip → Block → Clip
lock_block c (owned n locked w) = record c { block = owned n true w }
lock_block c no_block = misuse c
lock_block c given = misuse c

abbrev pub write_block : List ℕ → Clip → Block → Clip
write_block wide c (owned n true w) =
    if ltb n (length wide * 2) then misuse c else record c { block = owned n true wide }
write_block wide c (owned n false w) = misuse c
write_block wide c no_block = misuse c
write_block wide c given = misuse c

abbrev pub unlock_block : Clip → Block → Clip
unlock_block c (owned n true w) = record c { block = owned n false w }
unlock_block c (owned n false w) = misuse c
unlock_block c no_block = misuse c
unlock_block c given = misuse c

abbrev pub free_block : Clip → Block → Clip
free_block c (owned n locked w) = record c { block = no_block }
free_block c no_block = misuse c
free_block c given = misuse c

-- The block is the clipboard's from here on, and its content the clipboard's content.
abbrev pub give_block : Clip → Block → Clip
give_block c (owned n false w) = record c { block = given; content = w }
give_block c (owned n true w) = misuse c
give_block c no_block = misuse c
give_block c given = misuse c

-- The documented effect of a call.
abbrev pub effect : ClipAnswers → Clip → ClipCall → Clip
effect a c (global_alloc n) = record c {
  block = if a.allocated then owned n false [] else no_block;
}
effect a c global_lock = if a.locked then lock_block c c.block else c
effect a c (copy_to wide) = write_block wide c c.block
effect a c global_unlock = unlock_block c c.block
effect a c open_clipboard = record c { is_open = a.opened }
effect a c empty_clipboard = if c.is_open then record c { content = [] } else misuse c
effect a c set_clipboard_data =
    if not c.is_open then misuse c else if a.accepted then give_block c c.block else c
effect a c global_free = free_block c c.block
effect a c close_clipboard = if c.is_open then record c { is_open = false } else misuse c

abbrev pub effects : ClipAnswers → Clip → List ClipCall → Clip
effects a c [] = c
effects a c (x ∷ xs) = effects a (effect a c x) xs

-- In front of the calls.
abbrev pub unused : List ℕ → Clip
unused old = record { block = no_block; is_open = false; content = old; is_sound = true }

-- Behind them: without a block, or with the clipboard's where all calls succeed.
abbrev pub used : ClipAnswers → Text → List ℕ → Clip
used a text old =
    let opened = a.allocated && a.locked && a.opened in
    record {
      block = if opened && a.accepted then given else no_block;
      is_open = false;
      content = if opened then (if a.accepted then to_wide text else []) else old;
      is_sound = true;
    }

-- Whichever calls fail, no call is misused: nothing is written behind the block's end, what the
-- clipboard was given is not freed, and it is closed only when open. The program is left with no memory
-- of its own and with the clipboard closed. The clipboard has the text where all succeed, is empty where
-- only its data is refused, and has its old content otherwise.
pub set_clipboard_text-effects :
    (a : ClipAnswers) (text : Text) (old : List ℕ)
    → effects a (unused old) (set_clipboard_text a text) ≡ used a text old
unfolding set_clipboard_text
set_clipboard_text-effects a text old = go a.allocated a.locked a.opened a.accepted
  where
    fits : ltb (length (to_wide text) * 2) (length (to_wide text) * 2) ≡ false
    fits = le→ltb (length (to_wide text) * 2) (length (to_wide text) * 2) (omega arith)

    go :
        (l k o s : Bool)
        → let b : ClipAnswers = record { allocated = l; locked = k; opened = o; accepted = s } in
          effects b (unused old) (set_clipboard_text b text) ≡ used b text old
    go false k o s = refl
    go true false o s = refl
    go true true false s = rw fits refl
    go true true true false = rw fits refl
    go true true true true = rw fits refl
