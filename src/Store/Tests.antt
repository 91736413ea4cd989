-- ===== src/Store/Tests.antt =====
-- Runs of the store's codecs, and the properties at concrete inputs.
use rewind_git_for_ai_agent.Prelude.{[], ◌∷◌, ◌++◌, ◌≡◌, refl, ok, err, arith}
use rewind_git_for_ai_agent.Bytes.{Bytes, cmp, bytes_eq}
use rewind_git_for_ai_agent.Bytes.Text.{ascii}
use rewind_git_for_ai_agent.Bytes.Words.{to_le, from_le}
use rewind_git_for_ai_agent.Store.Envelope
use rewind_git_for_ai_agent.Store.Envelope.{
  EnvelopeError, malformed, length_does_not_match_payload, decode_header,
}
use rewind_git_for_ai_agent.Store.Envelope.RoundTrip.{decode-encode, encode-decode}

abbrev envelope : Bytes
envelope = 82 ∷ 87 ∷ 79 ∷ 66 ∷ 1 ∷ 0 ∷ 0 ∷ 0 ∷ 3 ∷ 0 ∷ 0 ∷ 0 ∷ 0 ∷ 0 ∷ 0 ∷ 0 ∷ 97 ∷ 98 ∷ 99 ∷ []

encode_abc : Envelope.encode (ascii "abc") ≡ ok envelope
unfolding Envelope.encode to_le
encode_abc = refl

decode-envelope : Envelope.decode envelope ≡ ok (ascii "abc")
unfolding Envelope.decode decode_header from_le bytes_eq cmp
decode-envelope = refl

decode_longer :
    Envelope.decode (envelope ++ (7 ∷ [])) ≡ err (malformed length_does_not_match_payload)
unfolding Envelope.decode decode_header from_le bytes_eq cmp
decode_longer = refl

decode-encode_example : Envelope.decode envelope ≡ ok (ascii "abc")
decode-encode_example = decode-encode (ascii "abc") envelope encode_abc

encode-decode_example : Envelope.encode (ascii "abc") ≡ ok envelope
encode-decode_example =
    encode-decode envelope (ascii "abc") (omega arith) (omega arith) decode-envelope
