-- ===== src/Cdp/Replies/Own.antt =====
-- `_send_cdp` of prax_sandbox/cdp_service.py returns the reply to its own command.
use prax_sandbox.Base.{
  ℕ, ◌≡◌, ◌≢◌, refl, ap, ◌∙◌, ◌⊎◌, inl, inr, Bool, true, false, List, [], ◌∷◌, ◌++◌, Option, some,
  All, append_assoc,
}
use prax_sandbox.Cdp.Frames.{Bytes, text_frame, ws_recv}
use prax_sandbox.Cdp.Replies.{Message, has_id, reply_of, Reply, on_text, on_frame, wait_reply}

-- The bytes of one text frame.
pub record Frame : Type 0 where
  pub bytes : Bytes
  pub payload : Bytes
  pub reads : (rest : Bytes) → ws_recv (bytes ++ rest) ≡ (text_frame payload, rest)

abbrev pub all_bytes : List Frame → Bytes
all_bytes [] = []
all_bytes (f ∷ fs) = f.bytes ++ all_bytes fs

-- A clock that is in time once for each frame.
abbrev pub in_time_for : List Frame → List Bool → List Bool
in_time_for [] clock = clock
in_time_for (f ∷ fs) clock = true ∷ in_time_for fs clock

module _ (loads : Bytes → Option Message) (id : ℕ) where
  -- An empty text, or a message with another id.
  abbrev pub IsForeign : Frame → Type 0
  IsForeign f =
      (f.payload ≡ []) ⊎ ((m : Message) × (loads f.payload ≡ some m) × (has_id m id ≡ false))

  on_text-foreign :
      (text : Bytes) (later : Reply)
      → (text ≡ []) ⊎ ((m : Message) × (loads text ≡ some m) × (has_id m id ≡ false))
      → on_text loads id text later ≡ later
  unfolding on_text
  on_text-foreign [] later h = refl
  on_text-foreign (b ∷ bs) later (inl e) = cc
  on_text-foreign (b ∷ bs) later (inr (m, e, other)) = rw (e, other, on_text) refl

  on_text-own :
      (text : Bytes) (m : Message) (later : Reply)
      → text ≢ []
      → loads text ≡ some m
      → has_id m id ≡ true
      → on_text loads id text later ≡ reply_of m
  unfolding on_text
  on_text-own [] m later h e own = absurd (h refl)
  on_text-own (b ∷ bs) m later h e own = rw (e, own, on_text) refl

  wait_reply-frame :
      (f : Frame) (clock : List Bool) (rest : Bytes)
      → wait_reply loads id (true ∷ clock) (f.bytes ++ rest)
        ≡ on_text loads id f.payload (wait_reply loads id clock rest)
  unfolding wait_reply on_frame
  wait_reply-frame f clock rest = rw (f.reads rest, wait_reply) refl

  -- The reply with the command's id is returned, whatever texts with other ids come before it, where
  -- each of them and the reply is read in time.
  pub wait_reply-own :
      (others : List Frame) (own : Frame) (m : Message) (clock : List Bool) (rest : Bytes)
      → All IsForeign others
      → own.payload ≢ []
      → loads own.payload ≡ some m
      → has_id m id ≡ true
      → wait_reply loads id
          (in_time_for others (true ∷ clock))
          (all_bytes others ++ (own.bytes ++ rest))
        ≡ reply_of m
  wait_reply-own [] own m clock rest foreign filled e is =
      wait_reply-frame own clock rest ∙ on_text-own own.payload m _ filled e is
  wait_reply-own (f ∷ fs) own m clock rest (foreign, more) filled e is =
      let tail = own.bytes ++ rest in
      let later = wait_reply loads id (in_time_for fs (true ∷ clock)) (all_bytes fs ++ tail) in
      ap (wait_reply loads id (true ∷ in_time_for fs (true ∷ clock)))
        (append_assoc f.bytes (all_bytes fs) tail)
      ∙ wait_reply-frame f (in_time_for fs (true ∷ clock)) (all_bytes fs ++ tail)
      ∙ on_text-foreign f.payload later foreign
      ∙ wait_reply-own fs own m clock rest more filled e is
