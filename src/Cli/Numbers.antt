-- ===== src/Cli/Numbers.antt =====
-- Reading the resource argument of `request-stream`: decimal numbers are read back, and those beyond
-- 32 bits wrap around.
use shinzohub.Prelude.{
  ℕ, zero, suc, ◌+◌, ◌*◌, ◌/◌, ◌%◌, ◌<◌, ◌^◌, Bytes, false, some, [], ◌∷◌, ◌≡◌, ◌≢◌, inl, inr, ◌∙◌,
  ap, arith, format_digits, format_uint, Bool-cases, ◌==◌, ok, Result-cases,
}
use shinzohub.Sourcehub.Server.{Msg}
use shinzohub.Cli.{
  Client, digits_value, atoi, to_resource, request_stream_access_message, cmd_request_stream_access,
}

digit_ok :
    (n k : ℕ) (acc : Bytes)
    → digits_value k ((48 + n % 10) ∷ acc) ≡ digits_value (k * 10 + n % 10) acc
unfolding digits_value
digit_ok n k acc = ground arith

digits_value-format_digits :
    (fuel n : ℕ) (acc : Bytes)
    → n < fuel
    → digits_value 0 (format_digits fuel n acc) ≡ digits_value n acc
unfolding format_digits
digits_value-format_digits zero n acc h = elim h [ ]
digits_value-format_digits (suc fuel) n acc h = elim (Bool-cases (n / 10 == 0)) [
  | inl last ↦ rw last (digit_ok n 0 acc ∙ ap (λ k. digits_value k acc) (ground arith))
  | inr more ↦ rw more (
      digits_value-format_digits fuel (n / 10) ((48 + n % 10) ∷ acc) (ground arith)
      ∙ digit_ok n (n / 10) acc
      ∙ ap (λ k. digits_value k acc) (omega arith))
]

IsFirstDigit : Bytes → Type 0
IsFirstDigit [] = ⊥
IsFirstDigit (c ∷ s) = (c ≢ b'-') × (c ≢ b'+')

format_digits-IsFirstDigit :
    (fuel n : ℕ) (acc : Bytes) → n < fuel → IsFirstDigit (format_digits fuel n acc)
unfolding format_digits IsFirstDigit
format_digits-IsFirstDigit zero n acc h = elim h [ ]
format_digits-IsFirstDigit (suc fuel) n acc h = elim (Bool-cases (n / 10 == 0)) [
  | inl last ↦ rw last (omega arith, omega arith)
  | inr more ↦ rw more (format_digits-IsFirstDigit fuel (n / 10) _ (ground arith))
]

atoi-unsigned :
    (s : Bytes) (n : ℕ)
    → IsFirstDigit s
    → digits_value 0 s ≡ some n
    → n < 2 ^ 63
    → atoi s ≡ some (false, n)
unfolding atoi IsFirstDigit
atoi-unsigned [] n f h lt = absurd f
atoi-unsigned (c ∷ s) n f h lt = ground (arith, f.0, f.1)

-- `Atoi` reads back every printed number below 2⁶³.
pub atoi-format_uint : (n : ℕ) → n < 2 ^ 63 → atoi (format_uint n) ≡ some (false, n)
unfolding format_uint digits_value
atoi-format_uint n lt =
    atoi-unsigned (format_uint n) n (format_digits-IsFirstDigit (suc n) n [] (omega arith))
      (digits_value-format_digits (suc n) n [] (omega arith)) lt

-- A message that is sent has the resource, the stream and the DID as they were given.
message_fields :
    (cl : Client) (r : ℕ) (stream did : Bytes) (m : Msg)
    → request_stream_access_message cl r stream did ≡ ok m
    → (from : Bytes) × (m
        ≡ Msg.stream_access
            (record { signer = from; resource = r; stream_id = stream; did = did; expiration = 0 }))
unfolding request_stream_access_message
message_fields cl r stream did m h = elim (Result-cases cl.from_address) [
  | inl (e, q) ↦ absurd (ground arith)
  | inr (from, q) ↦ (from, ground arith)
]

-- The command `request-stream` with a decimal number below 2⁶³ as its resource sends a message whose
-- resource is that number modulo 2³²: a number that is too large is not refused.
pub request_stream_wraps :
    (cl : Client) (n : ℕ) (stream did : Bytes) (m : Msg)
    → n < 2 ^ 63
    → cmd_request_stream_access cl (format_uint n ∷ stream ∷ did ∷ []) ≡ ok m
    → (from : Bytes) × (m
        ≡ Msg.stream_access (record {
          signer = from;
          resource = n % 2 ^ 32;
          stream_id = stream;
          did = did;
          expiration = 0;
        }))
unfolding cmd_request_stream_access to_resource
request_stream_wraps cl n stream did m lt h =
    message_fields cl (n % 2 ^ 32) stream did m
      (rw (atoi-format_uint n lt, cmd_request_stream_access) at h)
