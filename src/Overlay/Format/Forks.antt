-- ===== src/Overlay/Format/Forks.antt =====
-- The AppleDouble files that gen.go makes are archives for `probeArchive`.
use be_hierarchic.Prelude.{
  ℕ, ◌≤◌, ◌<◌, ◌^◌, ◌≡◌, true, false, none, ap, ◌∙◌, arith, inr, List, ◌++◌, max, Bool,
}
use be_hierarchic.Prelude.Int.{ℤ}
use be_hierarchic.Intern.Path.{Name}
use be_hierarchic.Resourcefork.{ok, resource_fork_range}
use be_hierarchic.Appledouble.Finder.{Info, with_fork}
use be_hierarchic.Appledouble.Finder.Loaded.{resource_fork_range-with_fork}
use be_hierarchic.Appledouble.Header.Fork.{reads}
use be_hierarchic.Overlay.{is_sidecar}
use be_hierarchic.Overlay.Format.{
  File, archive, resource_fork, is_tiny, is_at_eof, by_fork, by_content, choose,
}

fork_found :
    (f : File) (name : Name) (off size : ℕ)
    → resource_fork_range f.read (λ o n. is_at_eof (f.cut_off o n)) ≡ ok (off, size)
    → 256 ≤ size
    → by_fork f name ≡ archive (resource_fork off size)
unfolding by_fork
fork_found f name off size e h = rw (e, by_fork) (ground (arith, h))

-- A regular file of 16 bytes or more, or of unknown size, that can be opened, has a name that starts with "._"
-- and starts with the header that gen.go makes for a resource fork of 286 bytes or more, whatever comes
-- after that, is taken by `probeArchive` for the resource fork of the size that the header was made for, at
-- 126 or at the later place that was asked for.
pub choose-with_fork :
    (f : File) (name : Name) (m : Info) (size fork_min : ℕ) (total : ℤ) (more : List ℕ)
    → f.raw ≡ inr (true, total)
    → is_tiny total ≡ false
    → f.refused ≡ none
    → is_sidecar name ≡ true
    → f.read ≡ reads ((with_fork m size fork_min).0 ++ more)
    → 286 ≤ size
    → size < 2 ^ 32
    → fork_min < 2 ^ 32
    → choose f name ≡ archive (resource_fork (max 126 fork_min) size)
unfolding choose by_content
choose-with_fork f name m size fork_min total more raw tiny opened side bytes big small low =
    let at_end : ℕ → ℕ → Bool = λ o n. is_at_eof (f.cut_off o n) in
    let range : resource_fork_range f.read at_end ≡ ok (max 126 fork_min, size) =
      ap (λ r. resource_fork_range r at_end) bytes
      ∙ resource_fork_range-with_fork at_end more m size fork_min big small low in
    rw (raw, tiny, opened, side)
      (fork_found f name (max 126 fork_min) size range (omega (arith, big)))
