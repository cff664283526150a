-- ===== src/Tests.antt =====
-- The theorems at concrete inputs, with a Redis, a broker and a JSON library that are simulated.
mod World
mod Codec
mod Security
mod Threads
mod Receiver
mod Tcp
mod Consumer
mod Config
mod Postgres
mod Producer
mod Listener
mod Http
mod Main
mod Logger
mod Programs
mod Books
mod Intake
mod Card
mod Transcript
