-- ===== src/Policy/Profiles.antt =====
-- The profiles of utils/usePolicy.ts (ui/desktop/src/renderer), compared with each other and with what is left of
-- them after an edit.
use orc_torrent.Prelude.{ℕ, ◌≤◌, ◌≡◌, ◌≢◌, ap, sym, ◌∙◌, arith, Bool, true, not, some}
use orc_torrent.Policy.{
  DesiredPolicy, TriState, off, prefer, require, PaddingLevel, no_padding, low, high, PolicyProfile,
  standard, hardened, anonymous, profile_policy, Flag, f_ipv6_enabled, f_upnp_natpmp_enabled,
  get_flag, set_flag, flag, merge,
}

abbrev pub level : PolicyProfile → ℕ
level standard = 0
level hardened = 1
level anonymous = 2

abbrev pub encryption_level : TriState → ℕ
encryption_level off = 0
encryption_level prefer = 1
encryption_level require = 2

abbrev pub padding_level : PaddingLevel → ℕ
padding_level no_padding = 0
padding_level low = 1
padding_level high = 2

-- Does the setting hold something back? Two of them allow something when they are on.
abbrev pub keeps_back : Flag → DesiredPolicy → Bool
keeps_back f_ipv6_enabled d = not d.ipv6_enabled
keeps_back f_upnp_natpmp_enabled d = not d.upnp_natpmp_enabled
keeps_back f d = get_flag f d

-- A higher profile holds back whatever a lower one does, with encryption and padding at least as high.
pub profile_policy_mono :
    (p q : PolicyProfile) (f : Flag)
    → level p ≤ level q
    → keeps_back f (profile_policy p) ≡ true
    → (keeps_back f (profile_policy q) ≡ true)
      × (encryption_level (profile_policy p).peer_encryption
          ≤ encryption_level (profile_policy q).peer_encryption)
      × (padding_level (profile_policy p).overlay_padding
          ≤ padding_level (profile_policy q).overlay_padding)
unfolding profile_policy
profile_policy_mono p q f h k = ground (arith, h, k)

set_flag-profile : (f : Flag) (b : Bool) (d : DesiredPolicy) → (set_flag f b d).profile ≡ d.profile
set_flag-profile f b d = ground arith

get_flag-set_same : (f : Flag) (b : Bool) (d : DesiredPolicy) → get_flag f (set_flag f b d) ≡ b
get_flag-set_same f b d = ground arith

not-ne : (b : Bool) → not b ≢ b
not-ne b e = ground (arith, e)

-- A profile with one setting changed goes by the profile's name and is another policy.
pub edited_profile_named :
    (p : PolicyProfile) (f : Flag)
    → (let d = merge (flag f (not (get_flag f (profile_policy p)))) (profile_policy p) in
        (d.profile ≡ some p) × (d ≢ profile_policy p))
unfolding merge profile_policy
edited_profile_named p f =
    let b = not (get_flag f (profile_policy p)) in
    (
      set_flag-profile f b (profile_policy p),
      λ e.
          not-ne (get_flag f (profile_policy p))
            (sym (get_flag-set_same f b (profile_policy p)) ∙ ap (get_flag f) e),
    )
