-- ===== src/Middleware/Dependency/Report.antt =====
-- The header of http/middleware/external_dependency.go: what it reports.
use bricks.Prelude.{
  ◌≡◌, refl, true, false, List, [], ◌∷◌, ◌++◌, if◌then◌else◌, length, ltb, arith, ap, ◌∙◌,
}
use bricks.Prelude.Text.{Text}
use bricks.Middleware.Dependency.{
  ExternalDependencyContext, add_dependency, string, Writer, add_header, pass, Passed, body, status,
  Call, write, write_header, add_external_dependency, step, serve, external_dependency,
}

-- The dependencies that are known when the response is first written to, if it is.
pub data Known : Type 0 where
  unwritten : Known
  known : ExternalDependencyContext → Known

unfoldable pub at_first_write : ExternalDependencyContext → List Call → Known
at_first_write c [] = unwritten
at_first_write c (write s ∷ cs) = known c
at_first_write c (write_header code ∷ cs) = known c
at_first_write c (add_external_dependency name dur ∷ cs) =
    at_first_write (c ++ record { name = name; duration = dur } ∷ []) cs

-- The header that these are to have.
unfoldable pub reported : Known → List Text
reported unwritten = []
reported (known []) = []
reported (known (d ∷ ds)) = string (d ∷ ds) ∷ []

add_header_done : (w : Writer) → w.header ≡ true → add_header w ≡ w
unfolding add_header
add_header_done w h = rw h refl

-- Once the header is done, it is not changed.
serve_done : (w : Writer) (cs : List Call) → w.header ≡ true → (serve w cs).headers ≡ w.headers
unfolding serve step
serve_done w [] h = refl
serve_done w (write s ∷ cs) h =
    ap (λ v. (serve (pass v (body s)) cs).headers) (add_header_done w h)
    ∙ serve_done (pass w (body s)) cs h
serve_done w (write_header c ∷ cs) h =
    ap (λ v. (serve (pass v (status c)) cs).headers) (add_header_done w h)
    ∙ serve_done (pass w (status c)) cs h
serve_done w (add_external_dependency n d ∷ cs) h =
    serve_done
      (record {
        header = w.header;
        edc = add_dependency w.edc n d;
        headers = w.headers;
        passed = w.passed;
      })
      cs h

unfoldable first_headers : ExternalDependencyContext → List Text
first_headers c = if ltb 0 (length c) then string c ∷ [] else []

first_headers-reported : (c : ExternalDependencyContext) → first_headers c ≡ reported (known c)
unfolding first_headers reported
first_headers-reported [] = refl
first_headers-reported (d ∷ ds) = ground arith

serve-reported :
    (c : ExternalDependencyContext) (p : List Passed) (cs : List Call)
    → (serve (record { header = false; edc = c; headers = []; passed = p }) cs).headers
      ≡ reported (at_first_write c cs)
unfolding serve step add_header at_first_write add_dependency first_headers
serve-reported c p [] = unfold reported in refl
serve-reported c p (write s ∷ cs) =
    serve_done
      (record { header = true; edc = c; headers = first_headers c; passed = p ++ body s ∷ [] }) cs
      refl
    ∙ first_headers-reported c
serve-reported c p (write_header code ∷ cs) =
    serve_done
      (record { header = true; edc = c; headers = first_headers c; passed = p ++ status code ∷ [] })
      cs refl
    ∙ first_headers-reported c
serve-reported c p (add_external_dependency n d ∷ cs) =
    serve-reported (c ++ record { name = n; duration = d } ∷ []) p cs

-- Whatever the next handler does, the header is added once, with the dependencies that were added
-- before the response was first written to, and not at all if there were none or nothing is
-- written; dependencies that are added later are not reported.
pub external_dependency-reported :
    (cs : List Call) → (external_dependency cs).headers ≡ reported (at_first_write [] cs)
unfolding external_dependency
external_dependency-reported cs = serve-reported [] [] cs
