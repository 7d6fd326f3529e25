-- ===== src/Media/G711.antt =====
-- modules/media/codecs/g711.js: bytes of mu-law and A-law, and linear samples.
pub mod RoundTrips
use arnacon_webrtc_service.Shared.{
  ℕ, zero, suc, ◌+◌, ◌-◌, ◌*◌, ◌/◌, ◌%◌, ◌^◌, Bool, true, false, ◌&&◌, ◌||◌, List, map,
  if◌then◌else◌, ltb, leb, ◌==◌,
}

-- Signed numbers over the native ones: `negsuc n` is -(n + 1).
pub data ℤ : Type 0 where
  pos negsuc : ℕ → ℤ

-- `-n`.
abbrev negated : ℕ → ℤ
negated zero = pos 0
negated (suc n) = negsuc n

-- `a ^ b` on numbers of `bits` bits.
abbrev bit_xor : ℕ → ℕ → ℕ
bit_xor a b = (a + b) % 2

unfoldable pub xor : ℕ → ℕ → ℕ → ℕ
xor zero a b = 0
xor (suc bits) a b = bit_xor (a % 2) (b % 2) + 2 * xor bits (a / 2) (b / 2)

-- `muLawToLinear`: masks and shifts of a byte as quotients and remainders.
abbrev biased : ℕ → ℕ
biased u = ((u % 16) * 8 + 0x84) * 2 ^ (u / 16 % 8)

-- `0x84 - sample` and `sample - 0x84`; a biased sample is at least 0x84.
abbrev unbiased : Bool → ℕ → ℤ
unbiased true sample = negated (sample - 0x84)
unbiased false sample = pos (sample - 0x84)

unfoldable pub mu_law_to_linear : ℕ → ℤ
mu_law_to_linear value = let u = 255 - value in unbiased (u / 128 % 2 == 1) (biased u)

-- The loop over the masks: the highest of the bits 14 to 8 that is set gives the exponent.
unfoldable pub exponent_of : ℕ → ℕ → ℕ
exponent_of zero sample = 0
exponent_of (suc e) sample =
    let below = exponent_of e sample in if sample / 2 ^ (suc e + 7) % 2 == 1 then suc e else below

abbrev clipped : ℕ → ℕ
clipped sample = if ltb 32635 sample then 32635 else sample

-- The end of `linearToMuLaw`, with the sign bit and the magnitude.
unfoldable pub mu_law_code : ℕ → ℕ → ℕ
unfolding exponent_of
mu_law_code sign magnitude =
    let sample = clipped magnitude + 0x84 in
    let exponent = exponent_of 7 sample in
    255 - (sign + exponent * 16 + sample / 2 ^ (exponent + 3) % 16)

-- `linearToMuLaw`: `(sample >> 8) & 0x80` is the sign, and `-sample` is taken under it.
unfoldable pub linear_to_mu_law : ℤ → ℕ
unfolding mu_law_code
linear_to_mu_law (pos n) = if n / 256 / 128 % 2 == 1 then mu_law_code 0x80 0 else mu_law_code 0 n
linear_to_mu_law (negsuc n) = mu_law_code 0x80 (suc n)

-- `aLawToLinear`.
abbrev expanded : ℕ → ℕ → ℕ
expanded zero sample = sample + 8
expanded (suc zero) sample = sample + 0x108
expanded (suc segment) sample = (sample + 0x108) * 2 ^ segment

unfoldable pub a_law_to_linear : ℕ → ℤ
unfolding xor
a_law_to_linear value =
    let a = xor 8 value 0x55 in
    let sample = expanded (a / 16 % 8) (a % 16 * 16) in
    if a / 128 % 2 == 1 then pos sample else negated sample

-- The loop over SEG_END, whose entries are 2 ^ (segment + 5) - 1: the first segment that holds `pcm`.
unfoldable pub segment_of : ℕ → ℕ → ℕ → ℕ
segment_of zero segment pcm = segment
segment_of (suc left) segment pcm =
    let next = segment_of left (suc segment) pcm in
    if ltb (2 ^ (segment + 5) - 1) pcm then next else segment

unfoldable pub a_law_code : ℕ → ℕ → ℕ
unfolding segment_of xor
a_law_code mask pcm =
    let segment = segment_of 8 0 pcm in
    if leb 8 segment
    then xor 8 0x7f mask
    else if ltb segment 2
    then xor 8 (segment * 16 + pcm / 2 % 16) mask
    else xor 8 (segment * 16 + pcm / 2 ^ segment % 16) mask

-- `linearToALaw`: `sample >> 3` of -(n + 1) is -(n / 8 + 1), and `-pcm - 1` is n / 8.
unfoldable pub linear_to_a_law : ℤ → ℕ
unfolding a_law_code
linear_to_a_law (pos n) = a_law_code 0xd5 (n / 8)
linear_to_a_law (negsuc n) = a_law_code 0x55 (n / 8)

-- `transcodeG711Payload`, for the payload types 0 (PCMU) and 8 (PCMA).
unfoldable pub transcode_g711_payload : List ℕ → ℕ → ℕ → List ℕ
unfolding linear_to_a_law mu_law_to_linear linear_to_mu_law a_law_to_linear
transcode_g711_payload payload from_pt to_pt =
    if from_pt == 0 && to_pt == 8
    then map (λ b. linear_to_a_law (mu_law_to_linear b)) payload
    else if from_pt == 8 && to_pt == 0
    then map (λ b. linear_to_mu_law (a_law_to_linear b)) payload
    else payload
