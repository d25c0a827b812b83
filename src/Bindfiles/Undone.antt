-- ===== src/Bindfiles/Undone.antt =====
-- What Mount of pkg/bindfiles has mounted, Remove unmounts.
use mathlib.Core.Path.{subst}
use httptap.Shared.{
  ℕ, zero, suc, ◌≡◌, refl, ap, sym, ◌∙◌, Bool, true, false, not, ◌||◌, Option, none, some, List, [],
  ◌∷◌, ◌++◌, append-nil, append_assoc, Text, codes, Error, arith,
}
use httptap.System.{Event, Trace, Os}
use httptap.System.Files.{FileCall, mkdir_temp, remove_all, unmount, File, Paths}
use httptap.Bindfiles.{Remover, Found, bind_mount, unmount_all, removed, remove, counted}
use httptap.Bindfiles.Held.{bound_targets, mounted_from}

-- The targets of the unmounts that have been tried, in their order.
abbrev tried_by : Event FileCall → List Text
tried_by (unmount target, answer) = target ∷ []
tried_by _ = []

abbrev pub unmount_targets : Trace FileCall → List Text
unmount_targets [] = []
unmount_targets (e ∷ tr) = tried_by e ++ unmount_targets tr

abbrev failed_by : Event FileCall → Bool
failed_by (unmount target, some e) = true
failed_by _ = false

abbrev pub some_unmount_failed : Trace FileCall → Bool
some_unmount_failed [] = false
some_unmount_failed (e ∷ tr) = failed_by e || some_unmount_failed tr

abbrev deleted_by : Event FileCall → Bool
deleted_by (remove_all path, answer) = true
deleted_by _ = false

abbrev pub deletes : Trace FileCall → Bool
deletes [] = false
deletes (e ∷ tr) = deleted_by e || deletes tr

abbrev has_errors : ℕ → Bool
has_errors zero = false
has_errors (suc n) = true

abbrev is_some : Option Error → Bool
is_some none = false
is_some (some e) = true

abbrev pub some_call_failed : Trace FileCall → Bool
some_call_failed [] = false
some_call_failed (e ∷ tr) = is_some e.1 || some_call_failed tr

unmount_targets-append :
    (t u : Trace FileCall) → unmount_targets (t ++ u) ≡ unmount_targets t ++ unmount_targets u
unmount_targets-append [] u = refl
unmount_targets-append (e ∷ t) u =
    ap (λ l. tried_by e ++ l) (unmount_targets-append t u)
    ∙ sym (append_assoc (tried_by e) (unmount_targets t) (unmount_targets u))

deletes-append : (t u : Trace FileCall) → deletes u ≡ true → deletes (t ++ u) ≡ true
deletes-append [] u h = h
deletes-append (e ∷ t) u h = ground (arith, deletes-append t u h)

not_failed_last :
    (t : Trace FileCall) (p : Text) (o : Option Error)
    → some_unmount_failed (t ++ (remove_all p, o) ∷ []) ≡ some_unmount_failed t
not_failed_last [] p o = refl
not_failed_last (e ∷ t) p o = ap (λ b. failed_by e || b) (not_failed_last t p o)

failed_last :
    (t : Trace FileCall) (p : Text) (o : Option Error)
    → some_call_failed t ≡ false
    → some_call_failed (t ++ (remove_all p, o) ∷ []) ≡ is_some o
failed_last [] p none h = refl
failed_last [] p (some e) h = refl
failed_last (e ∷ t) p o h = ground (arith, failed_last t p o)

-- What Remove adds to the trace, and its result.
pub record Undoes (targets : List Text) (new : Trace FileCall) (result : Option Error)
    : Type 0 where
  pub all_tried : unmount_targets new ≡ targets
  pub reports : is_some result ≡ some_call_failed new
  pub deletes_last : deletes new ≡ not (some_unmount_failed new)

module _ (os : Os FileCall) (temp_name : Trace FileCall → Text) (paths : Paths)
    (look : Trace FileCall → Text → Found) where
  -- The loop of Remove.
  record Unmounts (tr : Trace FileCall) (targets : List Text) (out : Trace FileCall × ℕ)
      : Type 0 where
    new : Trace FileCall
    is_trace : out.0 ≡ tr ++ new
    all_tried : unmount_targets new ≡ targets
    keeps : deletes new ≡ false
    counts : has_errors out.1 ≡ some_unmount_failed new
    no_others : some_call_failed new ≡ some_unmount_failed new

  unmount_all-Unmounts :
      (targets : List Text) (tr : Trace FileCall)
      → Unmounts tr targets (unmount_all os temp_name paths look targets tr)
  unfolding unmount_all
  unmount_all-Unmounts [] tr = record {
    new = [];
    is_trace = sym (append-nil tr);
    all_tried = refl;
    keeps = refl;
    counts = refl;
    no_others = refl;
  }
  unmount_all-Unmounts (target ∷ targets) tr =
      one (os tr (unmount target))
        (unmount_all-Unmounts targets (tr ++ (unmount target, os tr (unmount target)) ∷ []))
    where
      one :
          (o : Option Error)
          → Unmounts
              (tr ++ (unmount target, o) ∷ [])
              targets
              (unmount_all os temp_name paths look targets (tr ++ (unmount target, o) ∷ []))
          → Unmounts tr (target ∷ targets) (
              counted os temp_name paths look o
                (unmount_all os temp_name paths look targets (tr ++ (unmount target, o) ∷ [])))
      one none u = record {
        new = (unmount target, none) ∷ u.new;
        is_trace = u.is_trace ∙ append_assoc tr _ u.new;
        all_tried = ap (λ l. target ∷ l) u.all_tried;
        keeps = u.keeps;
        counts = u.counts;
        no_others = u.no_others;
      }
      one (some e) u = record {
        new = (unmount target, some e) ∷ u.new;
        is_trace = u.is_trace ∙ append_assoc tr _ u.new;
        all_tried = ap (λ l. target ∷ l) u.all_tried;
        keeps = u.keeps;
        counts = refl;
        no_others = refl;
      }

  remove-Undoes :
      (r : Remover) (tr : Trace FileCall)
      → let out = remove os temp_name paths look r tr in
        (new : Trace FileCall) × (out.0 ≡ tr ++ new) × Undoes r.mounts new out.1
  unfolding remove
  remove-Undoes r tr =
      go (unmount_all os temp_name paths look r.mounts tr) (unmount_all-Unmounts r.mounts tr)
    where
      go :
          (x : Trace FileCall × ℕ)
          → Unmounts tr r.mounts x
          → let out = removed os temp_name paths look r x in
            (new : Trace FileCall) × (out.0 ≡ tr ++ new) × Undoes r.mounts new out.1
      go (t, zero) u =
          let last : Trace FileCall = (remove_all r.tmpdir, os t (remove_all r.tmpdir)) ∷ [] in
          let fine : some_unmount_failed u.new ≡ false = sym u.counts in
          (
            u.new ++ last,
            ap (λ l. l ++ last) u.is_trace ∙ append_assoc tr u.new last,
            record {
              all_tried =
                  unmount_targets-append u.new last
                  ∙ append-nil (unmount_targets u.new)
                  ∙ u.all_tried;
              reports =
                  sym
                    (failed_last u.new r.tmpdir (os t (remove_all r.tmpdir)) (u.no_others ∙ fine));
              deletes_last =
                  deletes-append u.new last refl
                  ∙ sym
                      (ap not (not_failed_last u.new r.tmpdir (os t (remove_all r.tmpdir)) ∙ fine));
            },
          )
      go (t, suc n) u = (
        u.new,
        u.is_trace,
        record {
          all_tried = u.all_tried;
          reports = u.counts ∙ sym u.no_others;
          deletes_last = u.keeps ∙ ap not u.counts;
        },
      )

  -- However Mount ends, if it returns a Remover, then Remove, called whenever and however its calls
  -- end, tries once to unmount each target that Mount has bound, in the same order, and no other.
  -- It reports an error exactly if one of its calls has failed, and removes the temporary directory
  -- exactly if every unmount has succeeded.
  pub mounts_undone :
      (files : List File) (tr tr' : Trace FileCall) (r : Remover)
      → (bind_mount os temp_name paths look files tr).remover ≡ some r
      → let out = remove os temp_name paths look r tr' in
        (made : Trace FileCall) × ((bind_mount os temp_name paths look files tr).trace ≡ tr ++ made)
        × (undone : Trace FileCall) × (out.0 ≡ tr' ++ undone)
        × Undoes (bound_targets made) undone out.1
  unfolding bind_mount
  mounts_undone files tr tr' r h =
      let c = mkdir_temp (codes "overlay-root-*") in
      let (new, e, m) =
        mounted_from os temp_name paths look files (tr ++ (c, os tr c) ∷ []) (temp_name tr)
          (os tr c) r h in
      let (undone, e', u) = remove-Undoes r tr' in
      (
        (c, os tr c) ∷ new,
        e ∙ append_assoc tr _ new,
        undone,
        e',
        subst (λ l. Undoes l undone (remove os temp_name paths look r tr').1) m u,
      )
