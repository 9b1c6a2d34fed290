-- ===== src/Kernel/BuildInfo/Sets.antt =====
-- A `BuildInfo` as a user sees it: `HashSet` has no order, so the flags are a list of words up to the words
-- that it contains.
use mathlib.Core.Bool.{Bool-set}
use mathlib.Core.Quot
use mathlib.Core.Quot.{Quot}
use async_procfs.Prelude.{
  ◌≡◌, refl, ap, All, Bool, true, false, ◌||◌, List, [], ◌∷◌, ◌++◌, arith, Text, codes, ok,
}
use async_procfs.Std.Strings.{join_with, all_chars}
use async_procfs.Std.Strings.Laws.{Free, is_sep}
use async_procfs.Std.Maps.{contains, add}
use async_procfs.Env.{Env}
use async_procfs.Kernel.BuildInfo.{
  BuildInfo, build_info, is_uppercase, build_from_str, smp, preempt, preemptrt,
}
use async_procfs.Kernel.BuildInfo.Flags.{contains-add}
use async_procfs.Kernel.BuildInfo.Fields.{add_all, build_from_str_lem}

-- The same words, in whatever order and however often.
abbrev pub SameWords : List Text → List Text → Type 0
SameWords fs gs = (k : Text) → contains k fs ≡ contains k gs

abbrev pub Flags : Type 0
Flags = Quot SameWords

-- Whether a word is a flag.
abbrev pub has : Text → Flags → Bool
has k = Quot.lift Bool-set (contains k) (λ fs gs same. same k)

pub record View : Type 0 where
  pub version : Text
  pub flags : Flags
  pub extra : Text

abbrev pub view : BuildInfo → View
view b = record { version = b.version; flags = Quot.mk b.flags; extra = b.extra }

contains-add_all :
    (k : Text) (fs s : List Text) → contains k (add_all fs s) ≡ (contains k fs || contains k s)
unfolding contains
contains-add_all k [] s = refl
contains-add_all k (f ∷ fs) s = ground (arith, contains-add_all k fs (add f s), contains-add k f s)

same_flags : (fs gs : List Text) → SameWords fs gs → SameWords (add_all fs []) (add_all gs [])
unfolding contains
same_flags fs gs same k = ground (arith, contains-add_all k fs [], contains-add_all k gs [], same k)

module _ (E : Env) where
  -- Two texts whose words in capitals behind the first word are the same, in whatever order and however
  -- often, and which agree on the first word, that begins with a hash sign, and on the words from the first
  -- one on that is not in capitals, are accepted and give the same view, and the tests for SMP,
  -- PREEMPT and PREEMPTRT are tests of that view.
  pub build_from_str_order :
      (v w : Text) (fs gs ws : List Text)
      → SameWords fs gs
      → All (Free (is_sep b' ')) (((b'#' ∷ v) ∷ fs) ++ (w ∷ ws))
      → All (Free (is_sep b' ')) (((b'#' ∷ v) ∷ gs) ++ (w ∷ ws))
      → All (λ f. all_chars (is_uppercase E) f ≡ true) fs
      → All (λ f. all_chars (is_uppercase E) f ≡ true) gs
      → all_chars (is_uppercase E) w ≡ false
      → (b : BuildInfo) × (c : BuildInfo) × (build_from_str E
            (join_with b' ' (((b'#' ∷ v) ∷ fs) ++ (w ∷ ws)))
          ≡ ok b)
        × (build_from_str E (join_with b' ' (((b'#' ∷ v) ∷ gs) ++ (w ∷ ws))) ≡ ok c)
        × (view b ≡ view c)
        × (smp b ≡ has (codes "SMP") (view c).flags)
        × (preempt b ≡ has (codes "PREEMPT") (view c).flags)
        × (preemptrt b ≡ has (codes "PREEMPTRT") (view c).flags)
  unfolding smp preempt preemptrt
  build_from_str_order v w fs gs ws same spaces_fs spaces_gs capitals_fs capitals_gs other =
      let extra = w ++ (b' ' ∷ join_with b' ' ws) in
      (
        build_info v (add_all fs []) extra,
        build_info v (add_all gs []) extra,
        build_from_str_lem E v w fs ws spaces_fs capitals_fs other,
        build_from_str_lem E v w gs ws spaces_gs capitals_gs other,
        ap (λ (x : Flags). record { version = v; flags = x; extra = extra })
            (Quot.sound (same_flags fs gs same)),
        same_flags fs gs same (codes "SMP"),
        same_flags fs gs same (codes "PREEMPT"),
        same_flags fs gs same (codes "PREEMPTRT"),
      )
