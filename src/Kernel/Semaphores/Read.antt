-- ===== src/Kernel/Semaphores/Read.antt =====
-- `SemaphoreLimits::new` from the text of the file on.
use async_procfs.Prelude.{ℕ, map, ◌≡◌, true, List, [], ◌∷◌, ◌++◌, Text, All, codes, returned}
use async_procfs.Std.Chars.{is_whitespace, is_ascii_whitespace}
use async_procfs.Std.Strings.{join_with}
use async_procfs.Std.Strings.Laws.{Full, Free}
use async_procfs.Std.Strings.Trim.{trim_joined}
use async_procfs.Std.Ints.{show_uint}
use async_procfs.Env.{Env}
use async_procfs.Machine.{State}
use async_procfs.Procfs.{AsyncProcfs, read_options}
use async_procfs.Helpers.RoundTrip.{show_uint-Free, read_value_trimmed}
use async_procfs.Kernel.Semaphores.{SemaphoreLimits, limits_from_str, current_limits}
use async_procfs.Kernel.Semaphores.Parse.{FitsU64, numbers-ne-nil, limits_from_str_lem}

numbers-Free : (ns : List ℕ) → All (Free is_whitespace) (map show_uint ns)
numbers-Free [] = tt
numbers-Free (n ∷ ns) = (show_uint-Free n, numbers-Free ns)

-- Where the file can be opened and holds four `u64` numbers with an ASCII white space character between
-- them, any numbers behind them, and white space at its end, the limits are those numbers in their order.
pub current_limits_lem :
    (E : Env) (procfs : AsyncProcfs E.File) (g : E.File) (sep : ℕ) (l : SemaphoreLimits)
    (more : List ℕ) (tail : Text) (s : State E.World) (w₁ w₂ : E.World)
    → E.open_at procfs.file (codes "sys/kernel/sem") (read_options E) s.world ≡ returned g w₁
    → E.hybrid_read_to_string g w₁
      ≡ returned
          (join_with sep (map show_uint (l.semmsl ∷ l.semmns ∷ l.semopm ∷ l.semmni ∷ more)) ++ tail)
          w₂
    → is_ascii_whitespace sep ≡ true
    → FitsU64 l
    → Full is_whitespace tail
    → current_limits E procfs s ≡ returned l (record s { world = w₂ })
unfolding current_limits
current_limits_lem E procfs g sep l more tail s w₁ w₂ opened read space fits white =
    let ns = l.semmns ∷ l.semopm ∷ l.semmni ∷ more in
    read_value_trimmed E procfs _ limits_from_str E.from_message g _ _ l s w₁ w₂ opened read
      (trim_joined sep (show_uint l.semmsl) (map show_uint ns) tail (numbers-Free (l.semmsl ∷ ns))
        (numbers-ne-nil (l.semmsl ∷ ns)) white)
      (limits_from_str_lem sep l more space fits)
