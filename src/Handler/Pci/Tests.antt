-- ===== src/Handler/Pci/Tests.antt =====
-- A sensitive request, and the theorem at it.
use api_proxy.Prelude.{◌≡◌, refl, some, List, [], ◌∷◌, ◌⊎◌}
use api_proxy.Text.{Str, bytes}
use api_proxy.Http.Header.{Header}
use api_proxy.Http.Request.{Request}
use api_proxy.Http.Writer.{Writer, new_writer, write}
use api_proxy.ControlPlane.Samples.{london}
use api_proxy.Handler.Pci.{serve_pci}
use api_proxy.Handler.Pci.Sensitive.{IsSensitive, serve_pci-IsSensitive}

abbrev next : Writer → Request → Writer
next w r = write w (bytes "ok")

abbrev paths : List Str
paths = bytes "GET /v1/ping" ∷ []

serve_pci-IsSensitive_example :
    (IsSensitive paths london
      × ((h : Header) × ((serve_pci next paths new_writer london).sent ≡ some (400, h))))
    ⊎ ((¬ IsSensitive paths london)
        × (serve_pci next paths new_writer london ≡ next new_writer london))
serve_pci-IsSensitive_example = serve_pci-IsSensitive next paths new_writer london refl
