-- ===== src/Http.antt =====
-- What the proxy uses of the package net/http and of its neighbours net/url and mime: headers,
-- query values, media types, requests with lazily parsed forms, and response writers.
pub mod Header
pub mod Query
pub mod Media
pub mod Request
pub mod Writer
pub mod Run
mod Tests
