-- ===== src/Media/G711/RoundTrips.antt =====
-- modules/media/codecs/g711.js: what a byte becomes when it is decoded and encoded again.
use arnacon_webrtc_service.Shared.{
  ℕ, ◌≡◌, refl, ◌<◌, true, ◌==◌, ==_iff, if◌then◌else◌, all_below, all_below_sound,
}
use arnacon_webrtc_service.Media.G711.{
  mu_law_to_linear, linear_to_mu_law, a_law_to_linear, linear_to_a_law,
}

a_law_table : all_below 256 (λ b. linear_to_a_law (a_law_to_linear b) == b) ≡ true
unfolding all_below linear_to_a_law a_law_to_linear
a_law_table = refl

-- Encoding what an A-law byte decodes to gives the byte back, for each of the 256 bytes.
pub linear_to_a_law-a_law_to_linear : (b : ℕ) → b < 256 → linear_to_a_law (a_law_to_linear b) ≡ b
linear_to_a_law-a_law_to_linear b h =
    (==_iff _ b).0
      (all_below_sound 256 (λ c. linear_to_a_law (a_law_to_linear c) == c) b a_law_table h)

abbrev normal : ℕ → ℕ
normal b = if b == 127 then 255 else b

mu_law_table : all_below 256 (λ b. linear_to_mu_law (mu_law_to_linear b) == normal b) ≡ true
unfolding all_below linear_to_mu_law mu_law_to_linear
mu_law_table = refl

-- Encoding what a mu-law byte decodes to gives the byte back, save for the negative zero 127, which
-- becomes the positive zero 255.
pub linear_to_mu_law-mu_law_to_linear :
    (b : ℕ) → b < 256 → linear_to_mu_law (mu_law_to_linear b) ≡ (if b == 127 then 255 else b)
linear_to_mu_law-mu_law_to_linear b h =
    (==_iff _ (normal b)).0 (
      all_below_sound 256 (λ c. linear_to_mu_law (mu_law_to_linear c) == normal c) b mu_law_table h)
