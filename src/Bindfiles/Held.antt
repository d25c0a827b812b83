-- ===== src/Bindfiles/Held.antt =====
-- The Remover that Mount of pkg/bindfiles returns holds what has been mounted.
use mathlib.Core.Option.{some-injective}
use httptap.Shared.{
  ℕ, suc, ◌≡◌, refl, ap, sym, ◌∙◌, Bool, true, false, if◌then◌else◌, Option, none, some, List, [],
  ◌∷◌, ◌++◌, append-nil, append_assoc, Text, Error,
}
use httptap.System.{Event, Trace, Os}
use httptap.System.Files.{Flag, ms_bind, FileCall, write_file, mount, File, Paths}
use httptap.Bindfiles.{
  Remover, Found, Mounted, stop, unsuitable, bind_call, source_path, bound, checked, written,
  bind_all, privatised, unshared, in_temp, private_call, unshare_call,
}

abbrev is_bind : List Flag → Bool
is_bind [] = false
is_bind (ms_bind ∷ flags) = true
is_bind (_ ∷ flags) = is_bind flags

-- The targets of the bind mounts that have succeeded, in their order.
abbrev bound_by : Event FileCall → List Text
bound_by (mount source target fstype flags options, none) =
    if is_bind flags then target ∷ [] else []
bound_by _ = []

abbrev pub bound_targets : Trace FileCall → List Text
bound_targets [] = []
bound_targets (e ∷ tr) = bound_by e ++ bound_targets tr

bound_targets-append :
    (t u : Trace FileCall) → bound_targets (t ++ u) ≡ bound_targets t ++ bound_targets u
bound_targets-append [] u = refl
bound_targets-append (e ∷ t) u =
    ap (λ l. bound_by e ++ l) (bound_targets-append t u)
    ∙ sym (append_assoc (bound_by e) (bound_targets t) (bound_targets u))

-- An outcome of Mount whose Remover holds what has been mounted since.
record Holds (tr : Trace FileCall) (r : Remover) (out : Mounted) : Type 0 where
  new : Trace FileCall
  final : Remover
  is_trace : out.trace ≡ tr ++ new
  is_remover : out.remover ≡ some final
  is_mounts : final.mounts ≡ r.mounts ++ bound_targets new

module _ (os : Os FileCall) (temp_name : Trace FileCall → Text) (paths : Paths)
    (look : Trace FileCall → Text → Found) where
  stop-Holds : (tr : Trace FileCall) (r : Remover) (e : Error) → Holds tr r (stop tr r e)
  stop-Holds tr r e = record {
    new = [];
    final = r;
    is_trace = sym (append-nil tr);
    is_remover = refl;
    is_mounts = sym (append-nil r.mounts);
  }

  -- An event before the rest, which has put the targets `ts` into the Remover.
  before-Holds :
      (tr : Trace FileCall) (e : Event FileCall) (r r' : Remover) (out : Mounted)
      → r'.mounts ≡ r.mounts ++ bound_by e
      → Holds (tr ++ e ∷ []) r' out
      → Holds tr r out
  before-Holds tr e r r' out m h = record {
    new = e ∷ h.new;
    final = h.final;
    is_trace = h.is_trace ∙ append_assoc tr (e ∷ []) h.new;
    is_remover = h.is_remover;
    is_mounts =
        h.is_mounts
        ∙ ap (λ l. l ++ bound_targets h.new) m
        ∙ append_assoc r.mounts (bound_by e) (bound_targets h.new);
  }

  -- One round of the loop, from the rest of it.
  module _ (go : Trace FileCall → Remover → Mounted)
      (ih : (t : Trace FileCall) (r : Remover) → Holds t r (go t r)) (i : ℕ) (f : File)
      (r : Remover) where
    abbrev bind : FileCall
    bind = bind_call os temp_name paths look r.tmpdir i f

    after_bind :
        (t : Trace FileCall) (o : Option Error)
        → Holds t r (bound os temp_name paths look go (t ++ (bind, o) ∷ []) r f.path o)
    after_bind t none =
        before-Holds t (bind, none) r (record r { mounts = r.mounts ++ f.path ∷ [] }) _ refl
          (ih _ _)
    after_bind t (some e) =
        before-Holds t (bind, some e) r r _ (sym (append-nil r.mounts)) (stop-Holds _ r _)

    after_look :
        (t : Trace FileCall) (o : Option Error)
        → Holds t r (checked os temp_name paths look go t r i f o)
    after_look t none = after_bind t (os t bind)
    after_look t (some e) = stop-Holds t r e

    after_write :
        (t : Trace FileCall) (o : Option Error)
        → Holds t r (written os temp_name paths look go t r i f o)
    after_write t none = after_look t (unsuitable os temp_name paths look (look t f.path))
    after_write t (some e) = stop-Holds t r _

  bind_all-Holds :
      (i : ℕ) (files : List File) (tr : Trace FileCall) (r : Remover)
      → Holds tr r (bind_all os temp_name paths look i files tr r)
  unfolding bind_all
  bind_all-Holds i [] tr r = record {
    new = [];
    final = r;
    is_trace = sym (append-nil tr);
    is_remover = refl;
    is_mounts = sym (append-nil r.mounts);
  }
  bind_all-Holds i (f ∷ files) tr r =
      let c = write_file (source_path os temp_name paths look r.tmpdir i f) f.content f.perm in
      before-Holds tr (c, os tr c) r r _ (sym (append-nil r.mounts))
        (after_write (bind_all os temp_name paths look (suc i) files)
          (λ t q. bind_all-Holds (suc i) files t q) i f r _ (os tr c))

  after_private :
      (files : List File) (tr : Trace FileCall) (r : Remover) (o : Option Error)
      → Holds tr r (privatised os temp_name paths look files tr r o)
  after_private files tr r none = bind_all-Holds 0 files tr r
  after_private files tr r (some e) = stop-Holds tr r _

  after_unshare :
      (files : List File) (tr : Trace FileCall) (r : Remover) (o : Option Error)
      → Holds tr r (unshared os temp_name paths look files tr r o)
  after_unshare files tr r none =
      let c = private_call os temp_name paths look in
      before-Holds tr (c, os tr c) r r _
        (sym (append-nil r.mounts) ∙ ap (λ l. r.mounts ++ l) (none_bound (os tr c)))
        (after_private files _ r (os tr c))
    where
      none_bound : (o : Option Error) → [] ≡ bound_by (private_call os temp_name paths look, o)
      none_bound none = refl
      none_bound (some e) = refl
  after_unshare files tr r (some e) = stop-Holds tr r _

  pub mounted_from :
      (files : List File) (tr : Trace FileCall) (tmpdir : Text) (o : Option Error) (r : Remover)
      → (in_temp os temp_name paths look files tr tmpdir o).remover ≡ some r
      → (new : Trace FileCall) × ((in_temp os temp_name paths look files tr tmpdir o).trace
          ≡ tr ++ new)
        × (r.mounts ≡ bound_targets new)
  mounted_from files tr tmpdir none r h =
      let c = unshare_call os temp_name paths look in
      let start : Remover = record { tmpdir = tmpdir; mounts = [] } in
      let held : Holds tr start (in_temp os temp_name paths look files tr tmpdir none) =
        before-Holds tr (c, os tr c) start start _ refl (after_unshare files _ start (os tr c)) in
      (
        held.new,
        held.is_trace,
        ap (λ (x : Remover). x.mounts) (some-injective _ _ (sym h ∙ held.is_remover))
            ∙ held.is_mounts,
      )
  mounted_from files tr tmpdir (some e) r h = absurd (cc)
