-- ===== src/Match/Regexp.antt =====
-- fncalls_checks/regex-utils.c: an expression that is compiled on its first use and kept. What it does
-- when it is used again is below.
use ahaggar.Base.{
  ℕ, ◌≡◌, Bool, true, false, Option, none, some, List, [], ◌∷◌, ◌++◌, codes, if◌then◌else◌,
}
use ahaggar.Checks.Sizes.{Verdict, matched, no_match}
use ahaggar.Match.{Libs, Event, out_error}

-- The result of regmatch: an error of `regcomp`, or what `regexec` gives.
pub data RegResult : Type 0 where
  not_compiled : RegResult
  executed : Verdict → RegResult

module _ (libs : Libs) (starts_with_zero : libs.Regex → Bool) where
  -- `regex_t`: all 0, or compiled. `starts_with_zero` tells whether its first byte is 0 even so.
  abbrev pub Slot : Type 0
  Slot = Option libs.Regex

  -- The first byte of the structure.
  pub is_unused : Slot → Bool
  is_unused none = true
  is_unused (some regex) = starts_with_zero regex

  -- Behind `regcomp`: whether it failed, and the slot.
  pub compiled : Option libs.Regex → Slot → Bool × Slot
  compiled none slot = (true, slot)
  compiled (some regex) slot = (false, some regex)

  pub reginit : Slot → List ℕ → Bool × Slot
  reginit slot pattern =
      if is_unused slot then compiled (libs.regcomp pattern) slot else (false, slot)

  pub executed_on : List ℕ → Slot → RegResult
  executed_on call none = not_compiled
  executed_on call (some regex) = executed (if libs.regexec regex call then matched else no_match)

  pub reported : List ℕ → List ℕ → Bool × Slot → RegResult × Slot × List Event
  reported call pattern (true, slot) = (
    not_compiled,
    slot,
    out_error (codes "GCC plugin: failed to compile regexp: " ++ libs.regerror pattern) ∷ [],
  )
  reported call pattern (false, slot) = (executed_on call slot, slot, [])

  pub regmatch : Slot → List ℕ → List ℕ → RegResult × Slot × List Event
  regmatch slot call pattern = reported call pattern (reginit slot pattern)

  -- An expression that compiles to something whose first byte is not 0: regmatch on a fresh regex_t
  -- compiles it and executes it, and each later regmatch with that regex_t executes the same
  -- expression, whatever pattern it is given, without a message.
  pub regmatch-regmatch :
      (pattern other call second : List ℕ) (regex : libs.Regex)
      → libs.regcomp pattern ≡ some regex
      → starts_with_zero regex ≡ false
      → (regmatch none call pattern ≡ (executed_on call (some regex), some regex, []))
        × (regmatch (some regex) second other ≡ (executed_on second (some regex), some regex, []))
  unfolding regmatch reginit is_unused reported compiled
  regmatch-regmatch pattern other call second regex e z = (simp e, simp z)
