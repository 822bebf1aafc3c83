-- ===== src/Wire/Genesis/RoundTrip.antt =====
-- `GenesisState` is read back from what was written of it.
use shinzohub.Prelude.{
  ℕ, ◌^◌, ◌<◌, ◌≡◌, ◌≢◌, refl, arith, [], ◌++◌, ◌==◌, Bool, Bytes, length, length-append, ok, err,
  Option, none, some,
}
use shinzohub.Sourcehub.State.{Params}
use shinzohub.Wire.Writer.{Numbers}
use shinzohub.Wire.Writer.Fills.{EncodesNumbers, field, length-field}
use shinzohub.Wire.Reader.{Cursor, unread, out_of_fuel, wrong_wire_type, read_bytes, select}
use shinzohub.Wire.Reader.Within.{
  Within, rest_of, if_Within, bind-Within, ne-Within, read_bytes-Within, text_case-Within,
  select-Moves,
}
use shinzohub.Wire.Loop.{Message, Skip, known, Restores}
use shinzohub.Wire.Loop.Ends.{Progresses, SkipsTag, unmarshal_of-ends}
use shinzohub.Wire.Loop.Parses.{
  Parses, nothing-Parses, text-Parses, bytes_Parses, short_Parses, unmarshal_of-Parses,
}
use shinzohub.Wire.Params.RoundTrip.{params_format}
use shinzohub.Wire.Genesis.{
  WireGenesis, NestedCalls, size_genesis, marshal_genesis, params_case, switch_genesis,
  unmarshal_genesis,
}
use shinzohub.Wire.Genesis.Nested.{CallsParams, nest, nested_ends, nested_ok}
use shinzohub.Wire.Genesis.Format.{
  nested_format, genesis_format, fresh_genesis, size_genesis-format, marshal_genesis-format,
}

module _ (n : Numbers) (law : EncodesNumbers n) (skip : Skip) (discard : Bool) (calls : NestedCalls)
    (called : CallsParams n skip discard calls) where
  params_case-Within :
      (number wire_type : ℕ) (x : WireGenesis) (c : Cursor)
      → SkipsTag skip
      → Within rest_of (length (unread c)) (params_case calls number wire_type x c)
  unfolding params_case Within
  params_case-Within number wire_type x c skips =
      if_Within rest_of _ (wire_type == 2) _ (err (wrong_wire_type number wire_type))
        (bind-Within rest_of rest_of _ _ (read_bytes c) _ (read_bytes-Within c) (λ p h.
          bind-Within (λ _. 0) rest_of 1 _ _ _
            (ne-Within _ (nested_ends n law skip discard calls called p.0 _ skips)) (λ q k. h)))
        (λ p. cc)

  switch_genesis-Progresses : SkipsTag skip → Progresses (switch_genesis calls)
  unfolding switch_genesis
  switch_genesis-Progresses skips number wire_type x c = select-Moves _ number _ (
    text_case-Within number wire_type c _,
    (
      text_case-Within number wire_type c _,
      (
        text_case-Within number wire_type c _,
        (
          text_case-Within number wire_type c _,
          (
            text_case-Within number wire_type c _,
            (
              text_case-Within number wire_type c _,
              (params_case-Within number wire_type x c skips, tt),
            ),
          ),
        ),
      ),
    ),
  )

  pub unmarshal_genesis-ends :
      (input : Bytes) (o : Option (Message WireGenesis))
      → SkipsTag skip
      → unmarshal_genesis calls skip discard input o ≢ err out_of_fuel
  unfolding unmarshal_genesis
  unmarshal_genesis-ends input o skips =
      unmarshal_of-ends skip skips discard (switch_genesis calls) (switch_genesis-Progresses skips)
        input o

  nested_Parses :
      (g : WireGenesis) (q : Option Params)
      → Parses skip discard
          (switch_genesis calls)
          []
          (record g { params = none })
          (nested_format (nest q) ++ [])
          (record g { params = nest q })
  unfolding nested_format switch_genesis select params_case
  nested_Parses g none = nothing-Parses skip discard (switch_genesis calls) [] _
  nested_Parses g (some p) =
      let x : Message Params = record { body = p; unknown_fields = [] } in
      short_Parses skip discard (switch_genesis calls) [] _ _ _ (λ h.
        let total = length-append (field 0x3a (params_format x)) [] in
        let short : length (params_format x) < 2 ^ 63 =
          omega (arith, length-field 0x3a (params_format x)) in
        bytes_Parses skip discard (switch_genesis calls) [] 7 (params_format x) [] _ _ _
          (omega arith) (omega arith)
          (λ c c' read. rw (read, nested_ok n law skip discard calls called p short) refl)
          (nothing-Parses skip discard (switch_genesis calls) [] _))

  -- What is written of a genesis state with such parameters is read back.
  pub unmarshal_genesis-format :
      (g : WireGenesis) (q : Option Params)
      → let x : Message WireGenesis = record {
        body = record g { params = nest q };
        unknown_fields = [];
      } in
        length (genesis_format x) < 2 ^ 63
        → unmarshal_genesis calls skip discard (genesis_format x) (some fresh_genesis) ≡ ok (some x)
  unfolding unmarshal_genesis genesis_format switch_genesis select
  unmarshal_genesis-format g q h =
      let m : WireGenesis = record g { params = nest q } in
      let x₀ : WireGenesis = fresh_genesis.body in
      let x₁ : WireGenesis = record x₀ { controller_connection_id = m.controller_connection_id } in
      let x₂ : WireGenesis = record x₁ { host_connection_id = m.host_connection_id } in
      let x₃ : WireGenesis = record x₂ { version = m.version } in
      let x₄ : WireGenesis = record x₃ { encoding = m.encoding } in
      let x₅ : WireGenesis = record x₄ { tx_type = m.tx_type } in
      let x₆ : WireGenesis = record x₅ { policy_id = m.policy_id } in
      unmarshal_of-Parses skip discard (switch_genesis calls) [] x₀ m _ h (
        text-Parses skip discard (switch_genesis calls) [] 1 m.controller_connection_id _ x₀ m
          (λ s. record x₀ { controller_connection_id = s }) (omega arith) (omega arith) (λ c. refl)
          refl
          (text-Parses skip discard (switch_genesis calls) [] 2 m.host_connection_id _ x₁ m
            (λ s. record x₁ { host_connection_id = s }) (omega arith) (omega arith) (λ c. refl) refl
            (text-Parses skip discard (switch_genesis calls) [] 3 m.version _ x₂ m
              (λ s. record x₂ { version = s }) (omega arith) (omega arith) (λ c. refl) refl
              (text-Parses skip discard (switch_genesis calls) [] 4 m.encoding _ x₃ m
                (λ s. record x₃ { encoding = s }) (omega arith) (omega arith) (λ c. refl) refl
                (text-Parses skip discard (switch_genesis calls) [] 5 m.tx_type _ x₄ m
                  (λ s. record x₄ { tx_type = s }) (omega arith) (omega arith) (λ c. refl) refl
                  (text-Parses skip discard (switch_genesis calls) [] 6 m.policy_id _ x₅ m
                    (λ s. record x₅ { policy_id = s }) (omega arith) (omega arith) (λ c. refl) refl
                    (nested_Parses g q)))))))

-- With the library's numbers as documented, `options.Size` of a genesis state that calls its own
-- `size`, and `options.Size`, `Marshal` and `Unmarshal` that call the methods of `Params`, a genesis
-- state with or without parameters, none of them with unknown fields, that takes less than 2^63
-- bytes, is written in as many bytes as `size` says, and `unmarshal` makes the same state of them.
pub genesis-Restores :
    (n : Numbers) (law : EncodesNumbers n) (skip : Skip) (discard : Bool) (calls : NestedCalls)
    (called : CallsParams n skip discard calls) (own_size : Option (Message WireGenesis) → ℕ)
    (g : WireGenesis) (q : Option Params)
    → let x : Message WireGenesis = known (record g { params = nest q }) in
      own_size (some x) ≡ size_genesis n calls (some x)
      → length (genesis_format x) < 2 ^ 63
      → Restores
          (size_genesis n calls)
          (marshal_genesis n calls own_size)
          (unmarshal_genesis calls skip discard)
          fresh_genesis
          x
genesis-Restores n law skip discard calls called own_size g q own h =
    let x : Message WireGenesis = known (record g { params = nest q }) in
    (
      genesis_format x,
      size_genesis-format n law skip discard calls called x h,
      marshal_genesis-format n law skip discard calls called own_size [] x own h,
      unmarshal_genesis-format n law skip discard calls called g q h,
    )
