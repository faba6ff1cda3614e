-- ===== src/Examples.antt =====
-- The tests, and each theorem at a concrete input.
mod Floats
mod Codec
mod Routing
mod Workerpool
mod Healthcheck
mod Sysmonitor
mod Hot
mod Debug
mod Mux
mod Api
mod Command
mod Tools
mod Statscraper
mod Serving
mod Engineclient
mod Loadgen
mod Agreed
mod Percentiles
