-- ===== src/Api/Body.antt =====
-- A response body is read whole and within its limit, or refused.
use vaultwarden_eso_provider.Prelude.{
  ℕ, ◌+◌, ◌≡◌, ◌≤◌, ◌<◌, ◌^◌, ◌↔◌, sym, ap, ◌∙◌, String, List, [], ◌∷◌, ◌++◌, arith, ok, >>=-eq-ok,
  length, length-append, append_assoc, append-nil,
}
use vaultwarden_eso_provider.Utf8.{Bytes}
use vaultwarden_eso_provider.Api.{Chunk, received, failed, collect_body, next_length}

-- The chunks all came, and `body` is their concatenation.
pub data Delivers : List Chunk → Bytes → Type 0 where
  done : Delivers [] []
  more :
      {chunks : List Chunk} {rest : Bytes} (chunk : Bytes)
      → Delivers chunks rest
      → Delivers (received chunk ∷ chunks) (chunk ++ rest)

module _ (endpoint : String) (limit : ℕ) where
  next_length_sound : (a b n : ℕ) → next_length endpoint limit a b ≡ ok n → a + b ≤ limit
  unfolding next_length
  next_length_sound a b n h = ground arith

  next_length_complete :
      (a b : ℕ) → limit < 2 ^ 64 → a + b ≤ limit → next_length endpoint limit a b ≡ ok (a + b)
  unfolding next_length
  next_length_complete a b small h = ground arith

  collect_body_sound :
      (before body : Bytes) (chunks : List Chunk)
      → length before ≤ limit
      → collect_body endpoint limit before chunks ≡ ok body
      → (rest : Bytes) × Delivers chunks rest × (body ≡ before ++ rest) × (length body ≤ limit)
  unfolding collect_body
  collect_body_sound before body [] fits h =
      ([], done, ground (arith, append-nil before), ground arith)
  collect_body_sound before body (failed ∷ chunks) fits h = cc
  collect_body_sound before body (received chunk ∷ chunks) fits h =
      let (n, e, h₁) = >>=-eq-ok (next_length endpoint limit (length before) (length chunk)) _ h in
      let within = next_length_sound (length before) (length chunk) n e in
      let (rest, delivered, whole, bound) =
        collect_body_sound (before ++ chunk) body chunks
          (omega (arith, length-append before chunk, within)) h₁ in
      (chunk ++ rest, more chunk delivered, whole ∙ append_assoc before chunk rest, bound)

  collect_body_complete :
      (before : Bytes) {chunks : List Chunk} {rest : Bytes}
      → limit < 2 ^ 64
      → Delivers chunks rest
      → length (before ++ rest) ≤ limit
      → collect_body endpoint limit before chunks ≡ ok (before ++ rest)
  unfolding collect_body
  collect_body_complete before small done fits = ap ok (sym (append-nil before))
  collect_body_complete before small (more {rest = r} chunk d) fits =
      let joined = append_assoc before chunk r in
      let fits' : length ((before ++ chunk) ++ r) ≤ limit = rw joined fits in
      let within : length before + length chunk ≤ limit =
        omega (arith, length-append before chunk, length-append (before ++ chunk) r, fits') in
      rw (next_length_complete (length before) (length chunk) small within)
        (collect_body_complete (before ++ chunk) small d fits' ∙ ap ok joined)

  -- With a limit that a 64-bit integer holds, a body is returned exactly when every chunk came,
  -- it is the concatenation of the chunks, and it is no longer than the limit.
  pub collect_body_iff :
      (body : Bytes) (chunks : List Chunk)
      → limit < 2 ^ 64
      → (collect_body endpoint limit [] chunks ≡ ok body)
        ↔ (Delivers chunks body × (length body ≤ limit))
  collect_body_iff body chunks small = (
    λ h.
        let (rest, delivered, whole, bound) = collect_body_sound [] body chunks (omega arith) h in
        (rw whole delivered, bound),
    λ (delivered, bound). collect_body_complete [] small delivered bound,
  )
