-- ===== src/Store/Attachments.antt =====
-- StoreAttachment of lib/store/fs.go: attachments are kept by what they hold.
use srndv.Base.{
  ◌≡◌, refl, sym, ap, ◌∙◌, none, some, ◌++◌, ltb, length, Bytes, same_refl, Bool-cases,
  Option-cases, inl, inr,
}
use srndv.Store.{Disk, Files, find, attachment_name, write_attachment, store_attachment, ext}

module _ (disk : Disk) where
  write_attachment-kept :
      (fs : Files) (r name : Bytes)
      → (write_attachment disk fs r name).1 ≡ none
      → find name (write_attachment disk fs r name).0.attachments ≡ some r
  unfolding write_attachment find
  write_attachment-kept fs r name = elim (Option-cases (disk.open_error name)) [
    | inr (x, k) ↦ rw (k, write_attachment) (λ h. cc)
    | inl k ↦
        rw (k, write_attachment)
          (elim (Option-cases (disk.write_error name)) [
            | inl k' ↦ rw (k', write_attachment) (λ h. rw (same_refl name) refl)
            | inr ((n, x), k') ↦
                rw (k', write_attachment)
                  (elim (Bool-cases (ltb n (length r))) [
                    | inl y ↦ rw y (λ h. cc)
                    | inr y ↦ rw y (λ h. rw (same_refl name) refl)
                  ])
          ])
  ]

  store_attachment-known :
      (fs : Files) (r filename text : Bytes)
      → disk.temp_error ≡ none
      → disk.stat_error (attachment_name disk r filename) ≡ none
      → find (attachment_name disk r filename) fs.attachments ≡ some text
      → store_attachment disk fs r filename ≡ (fs, none)
  unfolding store_attachment
  store_attachment-known fs r filename text t s f =
      rw (t, store_attachment) (rw (s, store_attachment) (rw (f, store_attachment) refl))

  -- what an attachment that was stored without an error leaves
  IsStored : Files → Bytes → Bytes → Type 0
  IsStored fs r name =
      (disk.temp_error ≡ none)
      × (disk.stat_error name ≡ none)
      × ((text : Bytes) × (find name fs.attachments ≡ some text))

  store_attachment-IsStored :
      (fs : Files) (r filename : Bytes)
      → (store_attachment disk fs r filename).1 ≡ none
      → IsStored (store_attachment disk fs r filename).0 r (attachment_name disk r filename)
  unfolding store_attachment IsStored
  store_attachment-IsStored fs r filename = elim (Option-cases disk.temp_error) [
    | inr (x, k) ↦ rw (k, store_attachment) (λ h. cc)
    | inl k ↦
        rw (k, store_attachment)
          (elim (Option-cases (disk.stat_error (attachment_name disk r filename))) [
            | inr (x, k') ↦ rw (k', store_attachment) (λ h. cc)
            | inl k' ↦
                rw (k', store_attachment)
                  (elim (Option-cases (find (attachment_name disk r filename) fs.attachments)) [
                    | inr (text, f) ↦ rw (f, store_attachment) (λ h. (refl, refl, (text, f)))
                    | inl f ↦
                        rw (f, store_attachment)
                          (λ h. (
                            refl,
                            refl,
                            (r, write_attachment-kept fs r (attachment_name disk r filename) h),
                          ))
                  ])
          ])
  ]

  -- An attachment is stored once: what StoreAttachment has stored without an error it finds, and so
  -- storing the same bytes again, under any file name with the same extension, changes nothing and
  -- is no error.
  pub store_attachment_once :
      (fs : Files) (r filename again : Bytes)
      → ext filename ≡ ext again
      → (store_attachment disk fs r filename).1 ≡ none
      → store_attachment disk (store_attachment disk fs r filename).0 r again
        ≡ ((store_attachment disk fs r filename).0, none)
  unfolding attachment_name IsStored
  store_attachment_once fs r filename again e h =
      let (t, s, (text, f)) = store_attachment-IsStored fs r filename h in
      let name : attachment_name disk r filename ≡ attachment_name disk r again =
        ap (λ x. disk.checksum r ++ x) e in
      store_attachment-known (store_attachment disk fs r filename).0 r again text t
        (ap disk.stat_error (sym name) ∙ s)
        (ap (λ n. find n (store_attachment disk fs r filename).0.attachments) (sym name) ∙ f)
