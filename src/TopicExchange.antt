-- ===== src/TopicExchange.antt =====
-- services/topic_responder.py and services/topic_request_client.py: a client asks for the topic of a MAC address,
-- and the responder answers from a table. A message is a topic and what `json.loads` reads of its payload, none
-- where that raises; the broker is what is delivered.
pub mod Responder
pub mod Client
pub mod Running
pub mod Answers
