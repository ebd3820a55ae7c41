-- ===== src/Sockets/Frames.antt =====
-- The frames of pkg/ws/frame.go. The packages structpb and proto are a parameter: `M` stands for
-- `map[string]any`, `E` for the envelope's `Struct`, `B` for `[]byte`, and `O` for Go values that are
-- neither texts nor maps.
use wire_server.Prelude.{
  String, Option, none, some, List, [], ◌∷◌, ◌==◌, ◌≡◌, refl, sym, ◌∙◌, ap, if◌then◌else◌,
}

pub record Frame (M : Type 0) : Type 0 where
  pub type : String
  pub trace_id : String
  pub user_id : String
  pub payload : M

-- A Go value, as the type assertions of `UnmarshalFrame` tell it.
pub data Value (M O : Type 0) : Type 0 where
  text : String → Value M O
  dict : M → Value M O
  other : O → Value M O

-- `normal`: `NewStruct` and then `AsMap` on a map; `none` is an error.
pub record Structs (M O E B : Type 0) : Type 0 where
  pub normal : M → Option M
  pub new_envelope : List (String × Value M O) → Option E
  pub as_map : E → List (String × Value M O)
  pub marshal : E → Option B
  pub unmarshal : B → Option E
  pub empty : M

module _ {M O : Type 0} where
  abbrev find_value : String → List (String × Value M O) → Option (Value M O)
  find_value k [] = none
  find_value k ((k', v) ∷ rest) = if k' == k then some v else find_value k rest

  abbrev text_or_empty : Option (Value M O) → String
  text_or_empty none = ""
  text_or_empty (some (text s)) = s
  text_or_empty (some (dict m)) = ""
  text_or_empty (some (other o)) = ""

  abbrev dict_or : M → Option (Value M O) → M
  dict_or e none = e
  dict_or e (some (text s)) = e
  dict_or e (some (dict m)) = m
  dict_or e (some (other o)) = e

  -- The map that `MarshalFrame` makes the envelope of.
  abbrev pub fields_of : Frame M → M → List (String × Value M O)
  fields_of f payload =
      ("type", text f.type)
      ∷ ("trace_id", text f.trace_id)
      ∷ ("user_id", text f.user_id)
      ∷ ("payload", dict payload)
      ∷ []

  abbrev pub frame_of : M → List (String × Value M O) → Frame M
  frame_of empty raw = record {
    type = text_or_empty (find_value "type" raw);
    trace_id = text_or_empty (find_value "trace_id" raw);
    user_id = text_or_empty (find_value "user_id" raw);
    payload = dict_or empty (find_value "payload" raw);
  }

module _ {M O E B : Type 0} (lib : Structs M O E B) where
  abbrev marshalled : Option E → Option B
  marshalled none = none
  marshalled (some e) = lib.marshal e

  abbrev marshal_payload : Frame M → Option M → Option B
  marshal_payload f none = none
  marshal_payload f (some payload) = marshalled (lib.new_envelope (fields_of f payload))

  -- `none` is an error.
  unfoldable pub marshal_frame : Frame M → Option B
  marshal_frame f = marshal_payload f (lib.normal f.payload)

  abbrev decoded : Option E → Option (Frame M)
  decoded none = none
  decoded (some e) = some (frame_of lib.empty (lib.as_map e))

  unfoldable pub unmarshal_frame : B → Option (Frame M)
  unmarshal_frame bytes = decoded (lib.unmarshal bytes)

  -- `proto.Unmarshal` reads back what `proto.Marshal` wrote.
  abbrev pub IsReadable : Type 0
  IsReadable = (e : E) (bytes : B) → lib.marshal e ≡ some bytes → lib.unmarshal bytes ≡ some e

  -- `AsMap` gives back the map that `NewStruct` made a struct of, where its values are texts and maps
  -- that came out of `AsMap`.
  abbrev pub IsFaithful : Type 0
  IsFaithful =
      (f : Frame M) (m payload : M) (e : E)
      → lib.normal m ≡ some payload
      → lib.new_envelope (fields_of f payload) ≡ some e
      → lib.as_map e ≡ fields_of f payload

  unmarshal-marshal_envelope :
      (faithful : IsFaithful) (readable : IsReadable) (f : Frame M) (payload : M) (bytes : B)
      (o : Option E)
      → lib.normal f.payload ≡ some payload
      → lib.new_envelope (fields_of f payload) ≡ o
      → marshalled o ≡ some bytes
      → decoded (lib.unmarshal bytes) ≡ some (record f { payload = payload })
  unmarshal-marshal_envelope faithful readable f payload bytes none n e h = absurd (cc h)
  unmarshal-marshal_envelope faithful readable f payload bytes (some e) n made h =
      ap decoded (readable e bytes h)
      ∙ ap (λ raw. some (frame_of lib.empty raw)) (faithful f f.payload payload e n made)

  -- A frame that `MarshalFrame` encodes is the one that `UnmarshalFrame` reads from the bytes, with its
  -- payload as `structpb` normalises it, when proto reads back what it wrote and `AsMap` gives back
  -- the envelope that `NewStruct` took.
  pub unmarshal_frame-marshal_frame :
      IsReadable
      → IsFaithful
      → (f : Frame M) (payload : M) (bytes : B) → lib.normal f.payload ≡ some payload
      → marshal_frame f ≡ some bytes
      → unmarshal_frame bytes ≡ some (record f { payload = payload })
  unfolding marshal_frame unmarshal_frame
  unmarshal_frame-marshal_frame readable faithful f payload bytes n h =
      unmarshal-marshal_envelope faithful readable f payload bytes _ n refl
        (sym (ap (marshal_payload f) n) ∙ h)
