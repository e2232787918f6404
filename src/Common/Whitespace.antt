-- ===== src/Common/Whitespace.antt =====
-- `str::trim` as far as the program uses it: whether anything is left. The whitespace characters are
-- Unicode's `White_Space`.
use Prim.Native.Nat.{ℕ}
use Prim.Native.Char.{code}
use Prim.Native.String.{String}
use mathlib.Core.Bool.{Bool, true, ◌&&◌, ◌||◌}
use melis.Common.Tests.{leb, nat_beq}

unfoldable pub is_whitespace : ℕ → Bool
is_whitespace c =
    (leb 9 c && leb c 13)
    || (nat_beq c 32
        || (nat_beq c 0x85
            || (nat_beq c 0xa0
                || (nat_beq c 0x1680
                    || ((leb 0x2000 c && leb c 0x200a)
                        || (nat_beq c 0x2028
                            || (nat_beq c 0x2029
                                || (nat_beq c 0x202f
                                    || (nat_beq c 0x205f || nat_beq c 0x3000)))))))))

-- `s.trim().is_empty()`
unfoldable pub is_blank : String → Bool
unfolding is_whitespace
is_blank String.[] = true
is_blank (String.◌∷◌ c s) = is_whitespace (code c) && is_blank s
