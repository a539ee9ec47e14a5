-- ===== src/Rpc/Egress.antt =====
-- internal/rpc/egress.go: the mark that a config's auto_redirect puts on its own traffic. A config
-- is what encoding/json makes of it, as far as configAutoRedirectMark looks; sing-tun's default mark
-- is the argument `default_mark`.
use nunya_core.Common.{
  ℕ, ◌≡◌, refl, Bool, true, false, not, ◌&&◌, ◌||◌, List, [], ◌∷◌, ◌++◌, ◌==◌, if◌then◌else◌, arith,
  All, ◌⊎◌, inl, inr, ap,
}

pub data InboundValue : Type 0 where
  malformed : InboundValue
  inbound : (is_tun auto_redirect : Bool) (output_mark : ℕ) → InboundValue

pub data CoreConfig : Type 0 where
  unparsable : CoreConfig
  inbounds : List InboundValue → CoreConfig

module _ (default_mark : ℕ) where
  unfoldable pub mark_loop : List InboundValue → ℕ
  mark_loop [] = 0
  mark_loop (malformed ∷ rest) = mark_loop rest
  mark_loop (inbound is_tun auto_redirect mark ∷ rest) =
      let later = mark_loop rest in
      if not is_tun || not auto_redirect
      then later
      else if not (mark == 0)
      then mark
      else default_mark

  unfoldable pub config_auto_redirect_mark : CoreConfig → ℕ
  unfolding mark_loop
  config_auto_redirect_mark unparsable = 0
  config_auto_redirect_mark (inbounds is) = mark_loop is

  unfoldable pub auto_redirect_mark_for : Bool → CoreConfig → ℕ
  unfolding config_auto_redirect_mark
  auto_redirect_mark_for is_linux config =
      if not is_linux then 0 else config_auto_redirect_mark config

  abbrev pub redirects : InboundValue → Bool
  redirects malformed = false
  redirects (inbound is_tun auto_redirect mark) = is_tun && auto_redirect

  abbrev pub mark_of : InboundValue → ℕ
  mark_of malformed = 0
  mark_of (inbound is_tun auto_redirect mark) = if mark == 0 then default_mark else mark

  -- The mark is that of the first inbound that redirects.
  pub FirstMark : List InboundValue → ℕ → Type 0
  FirstMark is m =
      ((before : List InboundValue) × (i : InboundValue) × (after : List InboundValue) × (is
          ≡ before ++ (i ∷ after))
        × All (λ j. redirects j ≡ false) before
        × (redirects i ≡ true)
        × (m ≡ mark_of i))
      ⊎ (All (λ j. redirects j ≡ false) is × (m ≡ 0))

  put_before :
      (i : InboundValue) (is : List InboundValue) (m : ℕ)
      → redirects i ≡ false
      → FirstMark is m
      → FirstMark (i ∷ is) m
  unfolding FirstMark
  put_before i is m e (inl (before, j, after, same, none_, here, mark)) =
      inl (i ∷ before, j, after, ap (◌∷◌ i) same, (e, none_), here, mark)
  put_before i is m e (inr (none_, zero_)) = inr ((e, none_), zero_)

  loop-FirstMark : (is : List InboundValue) → FirstMark is (mark_loop is)
  unfolding FirstMark mark_loop
  loop-FirstMark [] = inr (tt, refl)
  loop-FirstMark (malformed ∷ is) = put_before malformed is (mark_loop is) refl (loop-FirstMark is)
  loop-FirstMark (inbound false r m ∷ is) =
      put_before (inbound false r m) is (mark_loop is) refl (loop-FirstMark is)
  loop-FirstMark (inbound true false m ∷ is) =
      put_before (inbound true false m) is (mark_loop is) refl (loop-FirstMark is)
  loop-FirstMark (inbound true true m ∷ is) =
      inl ([], inbound true true m, is, refl, tt, refl, ground arith)

  -- On Linux, the mark of a config that parses is that of its first tun inbound with auto_redirect:
  -- the mark that it names if that is not 0, else the default; it is 0 where no inbound is such a
  -- one. It is 0 on other systems, and for a config that does not parse.
  pub auto_redirect_mark_for-FirstMark :
      (is : List InboundValue)
      → FirstMark is (auto_redirect_mark_for true (inbounds is))
        × ((config : CoreConfig) → auto_redirect_mark_for false config ≡ 0)
        × (auto_redirect_mark_for true unparsable ≡ 0)
  unfolding auto_redirect_mark_for
  auto_redirect_mark_for-FirstMark is = (loop-FirstMark is, λ c. refl, refl)
