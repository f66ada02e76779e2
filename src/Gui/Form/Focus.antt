-- ===== src/Gui/Form/Focus.antt =====
-- Which entry has the focus: up and down go round the entries and undo each other.
use crownet.Prelude.{
  ℕ, zero, suc, ◌+◌, ◌-◌, ◌%◌, ◌<◌, ◌≡◌, ◌∙◌, refl, sym, ap, some, List, [], ◌∷◌, length, get_elem?,
  arith, get_elem?-lt, some_inj, dec_lt,
}
use native.Mathlib.Nat.{mod-eq_of_lt, mod-eq-sub-mod, mod-lt}
use crownet.Gui.Entry.{Entry, new_entry, foc_in, foc_out, put_placeholder}
use crownet.Gui.Form.{
  SimpleForm, Item, one, two, three, entry_of, entries_from, new_form, change_at, focus_set,
  up_from, down_from, e_input_up, e_input_down,
}

-- Each entry knows its place.
abbrev pub Numbered : ℕ → List Entry → Type 0
Numbered i [] = Unit
Numbered i (e ∷ es) = (e.index ≡ i) × Numbered (suc i) es

abbrev pub Ready : SimpleForm → Type 0
Ready f = (f.focus < length f.inputs) × Numbered 0 f.inputs

Numbered-get_elem? :
    (k i : ℕ) (es : List Entry) (e : Entry)
    → Numbered k es
    → get_elem? es i ≡ some e
    → e.index ≡ k + i
Numbered-get_elem? k i [] e n h = cc
Numbered-get_elem? k zero (d ∷ es) e (here, n) h =
    ap Entry.index (sym (some_inj d e h)) ∙ (here ∙ omega arith)
Numbered-get_elem? k (suc i) (d ∷ es) e (here, n) h =
    omega (arith, Numbered-get_elem? (suc k) i es e n h)

Numbered-change_at :
    (g : Entry → Entry) (k i : ℕ) (es : List Entry)
    → ((e : Entry) → (g e).index ≡ e.index)
    → Numbered k es
    → Numbered k (change_at g i es)
unfolding change_at
Numbered-change_at g k i [] same n = n
Numbered-change_at g k zero (e ∷ es) same (here, n) = (same e ∙ here, n)
Numbered-change_at g k (suc i) (e ∷ es) same (here, n) =
    (here, Numbered-change_at g (suc k) i es same n)

length-change_at :
    (g : Entry → Entry) (i : ℕ) (es : List Entry) → length (change_at g i es) ≡ length es
unfolding change_at
length-change_at g i [] = refl
length-change_at g zero (e ∷ es) = refl
length-change_at g (suc i) (e ∷ es) = ap suc (length-change_at g i es)

length-focus_set : (i : ℕ) (f : SimpleForm) → length (focus_set i f).inputs ≡ length f.inputs
unfolding focus_set
length-focus_set i f =
    length-change_at foc_in i (change_at foc_out f.focus f.inputs)
    ∙ length-change_at foc_out f.focus f.inputs

focus_set-Ready :
    (i : ℕ) (f : SimpleForm) → i < length f.inputs → Numbered 0 f.inputs → Ready (focus_set i f)
unfolding focus_set foc_in foc_out
focus_set-Ready i f inside n = (
  omega (arith, length-focus_set i f),
  Numbered-change_at foc_in 0 i (change_at foc_out f.focus f.inputs) (λ e. refl)
      (Numbered-change_at foc_out 0 f.focus f.inputs (λ e. refl) n),
)

set_focus :
    (i : ℕ) (f : SimpleForm)
    → i < length f.inputs
    → Ready f
    → ((focus_set i f).focus ≡ i)
      × (length (focus_set i f).inputs ≡ length f.inputs)
      × Ready (focus_set i f)
unfolding focus_set
set_focus i f inside ready = (refl, length-focus_set i f, focus_set-Ready i f inside ready.1)

-- Where the focus goes.
down_step :
    (f : SimpleForm) → Ready f → e_input_down f ≡ focus_set ((f.focus + 1) % length f.inputs) f
unfolding e_input_down down_from
down_step f (at, n) =
    let (e, found) = get_elem?-lt f.inputs f.focus at in
    let place : e.index ≡ f.focus = Numbered-get_elem? 0 f.focus f.inputs e n found ∙ omega arith in
    rw (found, place) refl

up_step :
    (f : SimpleForm)
    → Ready f
    → e_input_up f ≡ focus_set ((f.focus + length f.inputs - 1) % length f.inputs) f
unfolding e_input_up up_from
up_step f (at, n) =
    let (e, found) = get_elem?-lt f.inputs f.focus at in
    let place : e.index ≡ f.focus = Numbered-get_elem? 0 f.focus f.inputs e n found ∙ omega arith in
    rw (found, place) refl

-- The remainder of a number below `n`, and of one that is `n` higher.
mod_below : (k n r : ℕ) → k ≡ r → r < n → k % n ≡ r
mod_below k n r same h = ap (λ m. m % n) same ∙ mod-eq_of_lt {n = r} {m = n} h

mod_once : (k n r : ℕ) → k ≡ r + n → r < n → k % n ≡ r
mod_once k n r same h =
    mod-eq-sub-mod {n = k} {m = n} (omega arith) ∙ mod_below (k - n) n r (omega arith) h

-- The entry before the one after, and the entry after the one before.
next_then_last : (i n : ℕ) → i < n → ((i + 1) % n + n - 1) % n ≡ i
next_then_last i n h = elim (dec_lt (i + 1) n) [
  | yes inside ↦
      rw (mod_below (i + 1) n (i + 1) refl inside) (mod_once (i + 1 + n - 1) n i (omega arith) h)
  | no last ↦
      rw (mod_once (i + 1) n 0 (omega arith) (omega arith))
        (mod_below (0 + n - 1) n i (omega arith) h)
]

last_then_next : (i n : ℕ) → i < n → ((i + n - 1) % n + 1) % n ≡ i
last_then_next zero n h =
    rw (mod_below (0 + n - 1) n (n - 1) (omega arith) (omega arith))
      (mod_once (n - 1 + 1) n 0 (omega arith) h)
last_then_next (suc i) n h =
    rw (mod_once (suc i + n - 1) n i (omega arith) (omega arith))
      (mod_below (i + 1) n (suc i) (omega arith) h)

-- The focus and the number of entries after a step.
down_focus :
    (f : SimpleForm)
    → Ready f
    → ((e_input_down f).focus ≡ (f.focus + 1) % length f.inputs)
      × (length (e_input_down f).inputs ≡ length f.inputs)
      × Ready (e_input_down f)
down_focus f ready = rw (down_step f ready) (
    set_focus ((f.focus + 1) % length f.inputs) f
      (mod-lt (f.focus + 1) {m = length f.inputs} (omega (arith, ready.0))) ready)

up_focus :
    (f : SimpleForm)
    → Ready f
    → ((e_input_up f).focus ≡ (f.focus + length f.inputs - 1) % length f.inputs)
      × (length (e_input_up f).inputs ≡ length f.inputs)
      × Ready (e_input_up f)
up_focus f ready = rw (up_step f ready) (
    set_focus ((f.focus + length f.inputs - 1) % length f.inputs) f
      (mod-lt (f.focus + length f.inputs - 1) {m = length f.inputs} (omega (arith, ready.0))) ready)

-- When each entry knows its place and one of them has the focus, up and down keep that, and each
-- brings the focus back to where it was before the other.
pub up_down_lem :
    (f : SimpleForm)
    → Ready f
    → Ready (e_input_down f)
      × Ready (e_input_up f)
      × ((e_input_up (e_input_down f)).focus ≡ f.focus)
      × ((e_input_down (e_input_up f)).focus ≡ f.focus)
up_down_lem f ready =
    let (down, as_many, down_ready) = down_focus f ready in
    let (up, so_many, up_ready) = up_focus f ready in
    (
      down_ready,
      up_ready,
      (up_focus (e_input_down f) down_ready).0
          ∙ rw (as_many, down) (next_then_last f.focus (length f.inputs) ready.0),
      (down_focus (e_input_up f) up_ready).0
          ∙ rw (so_many, up) (last_then_next f.focus (length f.inputs) ready.0),
    )

entries_from-Numbered : (k : ℕ) (items : List Item) → Numbered k (entries_from k items)
unfolding entries_from entry_of new_entry put_placeholder
entries_from-Numbered k [] = tt
entries_from-Numbered k (one name ∷ items) = (refl, entries_from-Numbered (suc k) items)
entries_from-Numbered k (two name required ∷ items) = (refl, entries_from-Numbered (suc k) items)
entries_from-Numbered k (three name required placeholder ∷ items) =
    (refl, entries_from-Numbered (suc k) items)

-- A form of at least one entry once its first entry has been given the focus.
pub new_form-Ready :
    (item : Item) (items : List Item) → Ready (focus_set 0 (new_form (item ∷ items)))
unfolding new_form entries_from
new_form-Ready item items =
    focus_set-Ready 0 (new_form (item ∷ items)) (omega arith)
      (entries_from-Numbered 0 (item ∷ items))
