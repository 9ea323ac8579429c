-- ===== src/General/TokenLists.antt =====
-- lingo-general/general.go: lists of identification tokens and of their acknowledgements.
use ipod.Base.{
  ℕ, zero, suc, ◌%◌, none, some, List, [], ◌∷◌, ◌++◌, Result, ok, err, ◌>>=◌, eof, unexpected_eof,
  unknown_ack, length, take, drop,
}
use ipod.General.Tokens.{
  FidTokenValue, FidTokenValueAck, marshal_token_value, unmarshal_token_value,
}

-- The loop of `SetFIDTokenValues.MarshalBinary`: each token behind its length in a byte.
unfoldable pub marshal_each : List FidTokenValue → Result (List ℕ)
unfolding marshal_token_value
marshal_each [] = ok []
marshal_each (v ∷ vs) = marshal_token_value v >>= λ bytes.
    marshal_each vs >>= λ rest. ok ((length bytes % 256) ∷ (bytes ++ rest))

-- `SetFIDTokenValues.MarshalBinary`
unfoldable pub marshal_tokens : List FidTokenValue → Result (List ℕ)
unfolding marshal_each
marshal_tokens vs = marshal_each vs >>= λ bytes. ok ((length vs % 256) ∷ bytes)

-- The loop of `SetFIDTokenValues.UnmarshalBinary`: `Next` gives what is left where it is too little.
unfoldable pub unmarshal_each : ℕ → List ℕ → Result (List FidTokenValue)
unfolding unmarshal_token_value
unmarshal_each zero bytes = ok []
unmarshal_each (suc n) [] = err eof
unmarshal_each (suc n) (len ∷ bytes) = unmarshal_token_value (take len bytes) >>= λ v.
    unmarshal_each n (drop len bytes) >>= λ vs. ok (v ∷ vs)

-- `SetFIDTokenValues.UnmarshalBinary`
unfoldable pub unmarshal_tokens : List ℕ → Result (List FidTokenValue)
unfolding unmarshal_each
unmarshal_tokens [] = err eof
unmarshal_tokens (count ∷ bytes) = unmarshal_each count bytes

-- `FIDTokenValueACK.MarshalBinary`: an ACK that is nil is refused.
unfoldable pub marshal_ack_value : FidTokenValueAck → Result (List ℕ)
marshal_ack_value v = elim v.ack [
  | none ↦ err unknown_ack
  | some bytes ↦ ok ((v.fid_type % 256) ∷ (v.fid_subtype % 256) ∷ bytes)
]

-- The loop of `RetFIDTokenValueACKs.MarshalBinary`
unfoldable pub marshal_each_ack : List FidTokenValueAck → Result (List ℕ)
unfolding marshal_ack_value
marshal_each_ack [] = ok []
marshal_each_ack (v ∷ vs) = marshal_ack_value v >>= λ bytes.
    marshal_each_ack vs >>= λ rest. ok ((length bytes % 256) ∷ (bytes ++ rest))

-- `RetFIDTokenValueACKs.MarshalBinary`
unfoldable pub marshal_acks : List FidTokenValueAck → Result (List ℕ)
unfolding marshal_each_ack
marshal_acks vs = marshal_each_ack vs >>= λ bytes. ok ((length vs % 256) ∷ bytes)

-- `FIDTokenValueACK.UnmarshalBinary`
unfoldable pub unmarshal_ack_value : List ℕ → Result FidTokenValueAck
unmarshal_ack_value [] = err eof
unmarshal_ack_value (a ∷ []) = err unexpected_eof
unmarshal_ack_value (a ∷ b ∷ bytes) =
    ok (record { fid_type = a; fid_subtype = b; ack = some bytes })

-- The loop of `RetFIDTokenValueACKs.UnmarshalBinary`
unfoldable pub unmarshal_each_ack : ℕ → List ℕ → Result (List FidTokenValueAck)
unfolding unmarshal_ack_value
unmarshal_each_ack zero bytes = ok []
unmarshal_each_ack (suc n) [] = err eof
unmarshal_each_ack (suc n) (len ∷ bytes) = unmarshal_ack_value (take len bytes) >>= λ v.
    unmarshal_each_ack n (drop len bytes) >>= λ vs. ok (v ∷ vs)

-- `RetFIDTokenValueACKs.UnmarshalBinary`
unfoldable pub unmarshal_acks : List ℕ → Result (List FidTokenValueAck)
unfolding unmarshal_each_ack
unmarshal_acks [] = err eof
unmarshal_acks (count ∷ bytes) = unmarshal_each_ack count bytes
