-- ===== src/Kernel/BuildInfo/Grammar.antt =====
-- The texts that `BuildInfo::from_str` accepts, and what it makes of them.
use async_procfs.Prelude.{◌≡◌, true, false, List, [], ◌∷◌, ◌++◌, Text, All}
use async_procfs.Std.Strings.{join_with, all_chars}
use async_procfs.Std.Strings.Laws.{Free, is_sep}
use async_procfs.Env.{Env}
use async_procfs.Kernel.BuildInfo.{BuildInfo, build_info, is_uppercase}
use async_procfs.Kernel.BuildInfo.Fields.{add_all}

-- The extra text that is made of the words from the first one not in capitals on.
abbrev pub extra_of : List Text → Text
extra_of [] = []
extra_of (w ∷ ws) = w ++ (b' ' ∷ join_with b' ' ws)

module _ (E : Env) where
  -- No words, or a first one that is not in capitals.
  abbrev pub StartsOther : List Text → Type 0
  StartsOther [] = Unit
  StartsOther (w ∷ ws) = all_chars (is_uppercase E) w ≡ false

  -- The text is made up of words with single spaces between them: a hash sign and the version; words in
  -- capitals, which are the flags; and other words, which make the extra text.
  pub record IsBuiltOf (s : Text) (b : BuildInfo) : Type 0 where
    pub version : Text
    pub capitals : List Text
    pub others : List Text
    pub words : s ≡ join_with b' ' (((b'#' ∷ version) ∷ capitals) ++ others)
    pub spaces : All (Free (is_sep b' ')) (((b'#' ∷ version) ∷ capitals) ++ others)
    pub flags_are_capitals : All (λ f. all_chars (is_uppercase E) f ≡ true) capitals
    pub others_start : StartsOther others
    pub made : b ≡ build_info version (add_all capitals []) (extra_of others)
