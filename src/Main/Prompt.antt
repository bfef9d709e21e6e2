-- ===== src/Main/Prompt.antt =====
-- The prompt for a file, and what needs an administrator (src/main.rs).
use phobos_wg_client.Base.{
  ℕ, zero, suc, replicate, Bool, true, false, not, ◌&&◌, List, [], ◌∷◌, ◌++◌, Option, none, some,
  ◌≡◌, refl, sym, ap, ◌∙◌, subst, ◌↔◌, ◌⊎◌, inl, inr, if◌then◌else◌, All,
}
use phobos_wg_client.Base.Result.{Result, ok, err, if_preserves}
use phobos_wg_client.WindowsNet.Elevation.{ElevateError}
use phobos_wg_client.Text.{Text, CaseTable}
use phobos_wg_client.Main.{
  Place, clean_path, is_supported, prompt, Surroundings, Outcome, helped, relaunched, not_elevated,
  proxy, cli, gui, Start, elevation, is_proxy_mode, is_cli_mode, is_help, choose_mode, import_of,
  passed_file, main, path_or, find_or_prompt_package,
}

-- The line names a supported file.
abbrev names_file : CaseTable → (Text → Place) → Option Text → Bool
names_file u place none = false
names_file u place (some input) = is_supported u (place (clean_path input))

abbrev pub IsRefused : CaseTable → (Text → Place) → Option Text → Type 0
IsRefused u place input = names_file u place input ≡ false

-- The first line that names a supported file, and the lines in front of it.
pub record Chosen (u : CaseTable) (place : Text → Place) (inputs : List (Option Text)) (p : Text)
    : Type 0 where
  pub before : List (Option Text)
  pub input : Text
  pub after : List (Option Text)
  pub split : inputs ≡ before ++ some input ∷ after
  pub refused : All (IsRefused u place) before
  pub supported : is_supported u (place p) ≡ true
  pub cleaned : clean_path input ≡ p

module _ (u : CaseTable) (place : Text → Place) where
  later_Chosen :
      (i : Option Text) (inputs : List (Option Text)) (p : Text)
      → IsRefused u place i
      → Chosen u place inputs p
      → Chosen u place (i ∷ inputs) p
  later_Chosen i inputs p r c = record {
    before = i ∷ c.before;
    input = c.input;
    after = c.after;
    split = ap (◌∷◌ i) c.split;
    refused = (r, c.refused);
    supported = c.supported;
    cleaned = c.cleaned;
  }

  prompt-Chosen :
      (inputs : List (Option Text)) (p : Text)
      → prompt u place inputs ≡ some p
      → Chosen u place inputs p
  unfolding prompt
  prompt-Chosen [] p e = absurd (cc)
  prompt-Chosen (none ∷ inputs) p e = later_Chosen none inputs p refl (prompt-Chosen inputs p e)
  prompt-Chosen (some input ∷ inputs) p e =
      step (is_supported u (place (clean_path input))) refl e (λ h. prompt-Chosen inputs p h)
    where
      step :
          (b : Bool)
          → is_supported u (place (clean_path input)) ≡ b
          → (if b then some (clean_path input) else prompt u place inputs) ≡ some p
          → (prompt u place inputs ≡ some p → Chosen u place inputs p)
          → Chosen u place (some input ∷ inputs) p
      step true s h later =
          let c : clean_path input ≡ p = cc in
          record {
            before = [];
            input = input;
            after = inputs;
            split = refl;
            refused = tt;
            supported = subst (λ x. is_supported u (place x) ≡ true) c s;
            cleaned = c;
          }
      step false s h later = later_Chosen (some input) inputs p s (later h)

  chosen_prompt :
      (before after : List (Option Text)) (input : Text)
      → All (IsRefused u place) before
      → is_supported u (place (clean_path input)) ≡ true
      → prompt u place (before ++ some input ∷ after) ≡ some (clean_path input)
  unfolding prompt
  chosen_prompt [] after input r s = rw s refl
  chosen_prompt (none ∷ before) after input r s = chosen_prompt before after input r.1 s
  chosen_prompt (some i ∷ before) after input r s = rw r.0 (chosen_prompt before after input r.1 s)

  -- At the end of the input each line is empty and none is refused as unreadable: the prompt goes on
  -- for ever, unless the empty path is a supported file.
  prompt-at_end :
      (n : ℕ)
      → is_supported u (place (clean_path [])) ≡ false
      → prompt u place (replicate n (some [])) ≡ none
  unfolding prompt
  prompt-at_end zero h = refl
  prompt-at_end (suc n) h = simp h (prompt-at_end n h)

  -- The prompt returns exactly the first line that names a supported file, cleaned of spaces and
  -- quotes: it goes on behind every other line and behind a line that cannot be read.
  pub prompt_iff :
      (inputs : List (Option Text)) (p : Text)
      → (prompt u place inputs ≡ some p) ↔ Chosen u place inputs p
  prompt_iff inputs p = (
    λ e. prompt-Chosen inputs p e,
    λ c.
        ap (prompt u place) c.split
        ∙ chosen_prompt c.before c.after c.input c.refused
            (subst (λ x. is_supported u (place x) ≡ true) (sym c.cleaned) c.supported)
        ∙ ap some c.cleaned,
  )

-- The outcomes that may install an adapter.
abbrev pub UsesAdapter : Outcome → Type 0
UsesAdapter (cli p) = Unit
UsesAdapter gui = Unit
UsesAdapter helped = ⊥
UsesAdapter relaunched = ⊥
UsesAdapter (not_elevated e) = ⊥
UsesAdapter (proxy p) = ⊥

-- What the start may do: adapters and imports only with their rights, imports only of what is
-- supported.
abbrev pub IsRightful : CaseTable → Surroundings → List Text → Start → Type 0
IsRightful u s args r =
    (UsesAdapter r.outcome → s.is_admin ≡ true)
    × ((p : Text)
        → r.imported ≡ some p
        → (is_supported u (s.place p) ≡ true)
          × (passed_file args ≡ some p)
          × ((is_proxy_mode args ≡ true) ⊎ (s.is_admin ≡ true)))

elevation-IsRightful :
    (u : CaseTable) (s : Surroundings) (args : List Text) (r : Result ElevateError (Unit {0}))
    → IsRightful u s args (elevation r)
elevation-IsRightful u s args (ok x) = (λ h. absurd h, λ p e. absurd (cc))
elevation-IsRightful u s args (err e) = (λ h. absurd h, λ p e. absurd (cc))

import_of-supported :
    (u : CaseTable) (s : Surroundings) (o : Option Text) (p : Text)
    → import_of u s.place o ≡ some p
    → (is_supported u (s.place p) ≡ true) × (o ≡ some p)
import_of-supported u s none p e = absurd (cc)
import_of-supported u s (some q) p e = step (is_supported u (s.place q)) refl e
  where
    step :
        (b : Bool)
        → is_supported u (s.place q) ≡ b
        → (if b then some q else none) ≡ some p
        → (is_supported u (s.place p) ≡ true) × (some q ≡ some p)
    step true x h = (let c : q ≡ p = cc in subst (λ x. is_supported u (s.place x) ≡ true) c x, h)
    step false x h = absurd (cc)

admin_of :
    (proxy_mode admin : Bool)
    → (not proxy_mode && not admin) ≡ false
    → (proxy_mode ≡ true) ⊎ (admin ≡ true)
admin_of true admin h = inl refl
admin_of false true h = inr refl
admin_of false false h = absurd (cc)

adapter_admin :
    (proxy_mode cli_mode admin : Bool) (path : Option Text)
    → (not proxy_mode && not admin) ≡ false
    → UsesAdapter (if proxy_mode then proxy path else if cli_mode then cli path else gui)
    → admin ≡ true
adapter_admin true cli_mode admin path h used = absurd used
adapter_admin false cli_mode true path h used = refl
adapter_admin false cli_mode false path h used = absurd (cc)

-- The window and the console's tunnel start only for an administrator, and a file is imported only if
-- it is the one that was passed, is supported, and the program runs as an administrator or a proxy.
pub main-IsRightful :
    (u : CaseTable) (s : Surroundings) (args : List Text) → IsRightful u s args (main u s args)
unfolding main choose_mode
main-IsRightful u s args =
    let started : Start = record {
      outcome = choose_mode u s args;
      imported = import_of u s.place (passed_file args);
    } in
    if_preserves (IsRightful u s args) (is_help args) (record { outcome = helped; imported = none })
      (if not (is_proxy_mode args) && not s.is_admin then elevation s.elevate else started)
      (λ e. (λ h. absurd h, λ p e. absurd (cc)))
      (λ e.
        if_preserves (IsRightful u s args) (not (is_proxy_mode args) && not s.is_admin)
          (elevation s.elevate) started (λ n. elevation-IsRightful u s args s.elevate)
          (λ n.
            let path =
              path_or (passed_file args) (find_or_prompt_package u s.place s.dir s.inputs) in
            (
              λ used. adapter_admin (is_proxy_mode args) (is_cli_mode args) s.is_admin path n used,
              λ p e.
                  let (a, b) = import_of-supported u s (passed_file args) p e in
                  (a, b, admin_of (is_proxy_mode args) s.is_admin n),
            )))
