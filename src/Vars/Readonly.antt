-- ===== src/Vars/Readonly.antt =====
-- A readonly variable of crates/epsh/src/var.rs, and what a body can do to it.
use mathlib.Core.Path.{subst}
use ish.Prelude.{
  ℕ, ◌≡◌, refl, sym, Bool, true, false, Option, none, some, List, [], ◌∷◌, arith, Bool-cases, inl,
  inr, if◌then◌else◌,
}
use ish.Utf8.{Str}
use ish.Vars.{
  Var, VarFlags, Scope, Variables, done, readonly_variable, same, put, update, entry, is_readonly,
}
use ish.Vars.Name.{same→≡}
use ish.Vars.Op.{
  Op, assign, assign_int, remove, mark_export, declared, mark_unexport, mark_readonly, local, after,
  step, run,
}

-- The binding is there and readonly, with this value and cached number.
abbrev pub Locked : Option Str → Option ℕ → Option Var → Type 0
Locked value cached none = ⊥
Locked value cached (some x) = (x.flags.readonly ≡ true) × (x.value ≡ value) × (x.cached ≡ cached)

abbrev vars_of : Variables → Str → Option Var
vars_of v = v.vars

module _ (value : Option Str) (cached : Option ℕ) where
  abbrev Keeps : Option Var → Option Var → Type 0
  Keeps old new = Locked value cached old → Locked value cached new

  -- An update of the name `n` keeps a lock on every name if it keeps the one on `n`.
  update-Locked :
      (v : Variables) (n name : Str) (new : Option Var)
      → Keeps (v.vars n) new
      → Keeps (v.vars name) ((update v n new).vars name)
  unfolding update put
  update-Locked v n name new f h = elim (Bool-cases (same n name)) [
    | inl equal ↦
        rw equal (f (subst (λ x. Locked value cached (v.vars x)) (sym (same→≡ n name equal)) h))
    | inr apart ↦ rw apart h
  ]

  not_locked : (o new : Option Var) → is_readonly o ≡ false → Keeps o new
  unfolding is_readonly
  not_locked none new free h = absurd h
  not_locked (some x) new free (ro, _, _) = absurd (ground arith)

  refused :
      (b : Bool) (v w : Variables) (name : Str)
      → (b ≡ false → Keeps (v.vars name) (w.vars name))
      → Keeps (v.vars name) ((after (if b then readonly_variable v else done w)).vars name)
  refused true v w name f h = h
  refused false v w name f h = f refl h

  set_unless :
      (v : Variables) (n name : Str) (new : Option Var)
      → Keeps (v.vars name) (
          (after
              (if is_readonly (v.vars n) then readonly_variable v else done (update v n new))).vars
            name)
  set_unless v n name new =
      refused (is_readonly (v.vars n)) v (update v n new) name
        λ free. update-Locked v n name new (not_locked (v.vars n) new free)

  entry-Locked :
      (o : Option Var) (flags : VarFlags)
      → ((entry o).flags.readonly ≡ true → flags.readonly ≡ true)
      → Keeps o (some (record (entry o) { flags = flags }))
  unfolding entry
  entry-Locked none flags f h = absurd h
  entry-Locked (some x) flags f (ro, sv, sc) = (f ro, sv, sc)

  unexported :
      (v : Variables) (n name : Str) (o : Option Var)
      → v.vars n ≡ o
      → Keeps (v.vars name) (
          vars_of
            (elim o [
              | none ↦ v
              | some x ↦ update v n (some (record x { flags = record x.flags { export = false } }))
            ])
            name)
  unexported v n name none e h = h
  unexported v n name (some x) e h =
      update-Locked v n name _ (λ k. subst (Locked value cached) e k) h

  make_local-vars :
      (v : Variables) (n name : Str) (ss : List Scope)
      → Keeps (v.vars name) (
          vars_of
            (elim ss [
              | [] ↦ v
              | sc ∷ scs ↦ record v {
                scopes =
                    record { saved = record { name = n; previous = v.vars n } ∷ sc.saved } ∷ scs;
              }
            ])
            name)
  make_local-vars v n name [] h = h
  make_local-vars v n name (sc ∷ scs) h = h

  step-Locked : (op : Op) (v : Variables) (name : Str) → Keeps (v.vars name) ((step op v).vars name)
  unfolding step
  step-Locked (assign n x) v name h = set_unless v n name _ h
  step-Locked (assign_int n i) v name h = set_unless v n name _ h
  step-Locked (remove n) v name h = set_unless v n name _ h
  step-Locked (mark_export n) v name h =
      update-Locked v n name _
        (entry-Locked (v.vars n) (record (entry (v.vars n)).flags { export = true }) (λ ro. ro)) h
  step-Locked (declared n) v name h =
      update-Locked v n name _ (entry-Locked (v.vars n) (entry (v.vars n)).flags (λ ro. ro)) h
  step-Locked (mark_unexport n) v name h = unexported v n name (v.vars n) refl h
  step-Locked (mark_readonly n) v name h =
      update-Locked v n name _
        (entry-Locked (v.vars n) (record (entry (v.vars n)).flags { readonly = true }) (λ ro. refl))
        h
  step-Locked (local n) v name h = make_local-vars v n name v.scopes h

-- No body that pops no scope changes the value or the number of a readonly variable, unsets it or makes
-- it writable, whatever it assigns, unsets, exports or makes local.
pub run-Locked :
    (value : Option Str) (cached : Option ℕ) (ops : List Op) (v : Variables) (name : Str)
    → Locked value cached (v.vars name)
    → Locked value cached ((run ops v).vars name)
unfolding run
run-Locked value cached [] v name h = h
run-Locked value cached (op ∷ ops) v name h =
    run-Locked value cached ops (step op v) name (step-Locked value cached op v name h)
